-- ===== src/AnsibleMitogen/ModuleFinder/Scan/Closed.antt =====
-- mitogen-0.2.9/ansible_mitogen/module_finder.py: the scan ends, with what the imports lead to.
use mathlib.Core.Path.{subst}
use ansible_course.Base.{
  ℕ, zero, suc, ◌+◌, ◌≤◌, String, Option, none, some, List, [], ◌∷◌, ◌≡◌, ◌⊎◌, ◌↔◌, refl, inl, inr,
  arith, Bool-cases,
}
use ansible_course.Base.Lists.{All, All-map, contains, length}
use ansible_course.AnsibleMitogen.ModuleFinder.{Module, top, py_source, FindModule}
use ansible_course.AnsibleMitogen.ModuleFinder.Same.{module_key, same_module_iff, same_module}
use ansible_course.AnsibleMitogen.ModuleFinder.Scan.{
  Search, offer_all, loop, Import, imports_of, Resolved, resolved, scan,
}
use ansible_course.AnsibleMitogen.ModuleFinder.Scan.Grows.{
  In, absurd_in, unseen, tops, Grows, Accepts, Full, Offered, offer_all-Grows,
}

-- A module is among what is imported.
abbrev pub Among : Module → List (Option Module) → Type 0
Among m [] = ⊥
Among m (o ∷ os) = (o ≡ some m) ⊎ Among m os

accepted_In :
    (os : List (Option Module)) (s : Search) (m : Module)
    → All (λ o. Accepts o s) os
    → Among m os
    → In m s.seen
accepted_In [] s m h a = elim a [ ]
accepted_In (o ∷ os) s m (h, hs) (inl e) = subst (λ x. Accepts x s) e h
accepted_In (o ∷ os) s m (h, hs) (inr a) = accepted_In os s m hs a

unseen-empty : (us : List Module) → unseen us [] ≡ length us
unfolding contains
unseen-empty [] = refl
unseen-empty (u ∷ us) = omega (arith, unseen-empty us)

module _ (imports : Module → List (Option Module)) (start : Module) where
  -- What the imports of a module lead to, with the parents of what is found on the way.
  pub data Reached : Module → Type 0 where
    first : {m : Module} → Among m (imports start) → Reached m
    onward : {m n : Module} → Reached m → Among n (imports m) → Reached n
    parent : {m n : Module} → Reached m → In n (tops m) → Reached n

module _ (imports : Module → List (Option Module)) (start : Module) (us : List Module)
    (within_us : (m : Module) → Reached imports start m → In m us) where
  from_imports :
      (os : List (Option Module))
      → ((m : Module) → Among m os → Reached imports start m)
      → All (Offered us (Reached imports start) within_us) os
  from_imports [] h = tt
  from_imports (none ∷ os) h = (tt, from_imports os (λ m a. h m (inr a)))
  from_imports (some m ∷ os) h =
      let r = h m (inl refl) in ((r, λ n e. parent r e), from_imports os (λ k a. h k (inr a)))

  -- What holds whenever the loop tests its condition.
  record Inv (s : Search) : Type 0 where
    full : Full s
    found : (m : Module) → In m s.seen → Reached imports start m
    known : (m : Module) → In m s.stack → (start ≡ m) ⊎ In m s.seen
    followed :
        (m : Module) → (start ≡ m) ⊎ In m s.seen → In m s.stack ⊎ All (λ o. Accepts o s) (imports m)

  abbrev Step : Module → List Module → List Module → Type 0
  Step m rest seen =
      let s : Search = offer_all (imports m) (record { stack = rest; seen = seen }) in
      Inv s × (unseen us s.seen + length s.stack ≤ unseen us seen + length rest)

  to_offer :
      (m : Module)
      → (start ≡ m) ⊎ Reached imports start m
      → All (Offered us (Reached imports start) within_us) (imports m)
  to_offer m (inl e) = from_imports (imports m) (λ k a. first (rw e a))
  to_offer m (inr r) = from_imports (imports m) (λ k a. onward r a)

  module _ (m : Module) (rest seen : List Module) (t : Search)
      (h : Inv (record { stack = m ∷ rest; seen = seen }))
      (g : Grows us (Reached imports start) within_us (record { stack = rest; seen = seen }) t)
      (accepted : All (λ o. Accepts o t) (imports m)) where
    still : (o : Option Module) → Accepts o (record { stack = m ∷ rest; seen = seen }) → Accepts o t
    still none a = tt
    still (some n) a = g.more n a

    pop :
        (k : Module)
        → In k (m ∷ rest)
          ⊎ All (λ o. Accepts o (record { stack = m ∷ rest; seen = seen })) (imports k)
        → In k t.stack ⊎ All (λ o. Accepts o t) (imports k)
    unfolding contains
    pop k (inr done) = inr (All-map _ _ still (imports k) done)
    pop k (inl e) = elim (Bool-cases (same_module m k)) [
      | inl same ↦
          inr (
            subst (λ n. All (λ o. Accepts o t) (imports n)) ((same_module_iff m k).0 same) accepted)
      | inr other ↦ inl (g.kept k (ground (arith, e, other)))
    ]

    step_followed :
        (k : Module) → (start ≡ k) ⊎ In k t.seen → In k t.stack ⊎ All (λ o. Accepts o t) (imports k)
    step_followed k (inl e) = pop k (h.followed k (inl e))
    step_followed k (inr e) = elim (g.queued k e) [
      | inl old ↦ pop k (h.followed k (inr old))
      | inr (w, p) ↦ inl w
    ]

    step_known : (k : Module) → In k t.stack → (start ≡ k) ⊎ In k t.seen
    unfolding contains
    step_known k e = elim (g.waits k e) [
      | inr new ↦ inr new
      | inl w ↦ elim (h.known k (ground (arith, w))) [
        | inl f ↦ inl f
        | inr old ↦ inr (g.more k old)
      ]
    ]

    after : Full t → Inv t
    after f = record {
      full = f;
      found = λ k e. elim (g.queued k e) [ inl old ↦ h.found k old | inr (w, p) ↦ p ];
      known = step_known;
      followed = step_followed;
    }

  round :
      (m : Module) (rest seen : List Module)
      → Inv (record { stack = m ∷ rest; seen = seen })
      → Step m rest seen
  unfolding contains
  round m rest seen h =
      let known : (start ≡ m) ⊎ Reached imports start m =
        elim (h.known m (ground (arith, same_module_iff m m))) [
          | inl e ↦ inl e
          | inr old ↦ inr (h.found m old)
        ] in
      let (g, accepted, full) =
        offer_all-Grows us (Reached imports start) within_us (imports m)
          (record { stack = rest; seen = seen }) (to_offer m known) h.full in
      (after m rest seen _ h g accepted full, g.work)

  rounds :
      (fuel : ℕ) (stack seen : List Module)
      → unseen us seen + length stack ≤ fuel
      → Inv (record { stack = stack; seen = seen })
      → (final : List Module) × (loop imports fuel stack seen ≡ some final)
        × Inv (record { stack = []; seen = final })
  unfolding loop
  rounds fuel [] seen h i = (seen, refl, i)
  rounds zero (m ∷ stack) seen h i = absurd (omega (arith, h))
  rounds (suc fuel) (m ∷ stack) seen h i =
      let (next, work) = round m stack seen i in rounds fuel _ _ (omega (arith, h, work)) next

  closed :
      (seen : List Module)
      → Inv (record { stack = []; seen = seen })
      → {m : Module} → Reached imports start m
      → In m seen
  closed seen h (first a) = elim (h.followed start (inl refl)) [
    | inl e ↦ absurd_in _ [] refl e
    | inr done ↦ accepted_In (imports start) _ _ done a
  ]
  closed seen h (onward {m} r a) = elim (h.followed m (inr (closed seen h r))) [
    | inl e ↦ absurd_in _ [] refl e
    | inr done ↦ accepted_In (imports m) _ _ done a
  ]
  closed seen h (parent {m} r e) = h.full m _ (closed seen h r) e

  pub loop-Closed :
      (fuel : ℕ)
      → suc (length us) ≤ fuel
      → (seen : List Module) × (loop imports fuel (start ∷ []) [] ≡ some seen)
        × ((m : Module) → In m seen ↔ Reached imports start m)
  unfolding contains
  loop-Closed fuel h =
      let (seen, e, final) =
        rounds fuel (start ∷ []) [] (omega (arith, h, unseen-empty us)) (record {
          full = λ m n e t. ground (arith, e);
          found = λ m e. absurd_in m [] refl e;
          known = λ m e. inl (ground (arith, e, same_module_iff start m));
          followed = λ m e. elim e [
            | inl same ↦ inl (ground (arith, same, same_module_iff start m))
            | inr old ↦ absurd_in m [] refl old
          ];
        }) in
      (seen, e, λ m. (λ a. final.found m a, λ r. closed seen final r))

-- Of finitely many modules that can be found, `scan` returns the ones that the imports of the module lead
-- to, each import followed, with the packages that they are in: these and no others. A round for each
-- of the modules, and one for the module itself, suffices.
pub scan-Closed :
    (sorted : List Resolved → List Resolved) (find_module : FindModule)
    (code : Module → List Import) (module_name module_path : String) (search_path : List String)
    (us : List Module) (fuel : ℕ)
    → ((m : Module)
        → Reached
            (imports_of find_module search_path code)
            (top module_name module_path py_source)
            m
        → In m us)
    → suc (length us) ≤ fuel
    → (seen : List Module) × (scan sorted find_module code fuel module_name module_path search_path
        ≡ some (sorted (resolved seen)))
      × ((m : Module)
          → In m seen
            ↔ Reached
                (imports_of find_module search_path code)
                (top module_name module_path py_source)
                m)
unfolding scan
scan-Closed sorted find_module code module_name module_path search_path us fuel h enough =
    let (seen, e, both) =
      loop-Closed (imports_of find_module search_path code) (top module_name module_path py_source)
        us h fuel enough in
    (seen, rw (e, scan) refl, both)
