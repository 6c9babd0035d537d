-- ===== src/AnsibleMitogen/ModuleFinder/Scan/Grows.antt =====
-- mitogen-0.2.9/ansible_mitogen/module_finder.py: what one round of the scan adds.
use mathlib.Core.Path.{subst}
use ansible_course.Base.{
  ℕ, suc, ◌+◌, ◌≤◌, true, false, Option, none, some, List, [], ◌∷◌, ◌++◌, ◌||◌, ◌≡◌, ◌⊎◌, refl, inl,
  inr, arith, Bool-cases, if◌then◌else◌,
}
use ansible_course.Base.Lists.{All, contains, length, length-append}
use ansible_course.AnsibleMitogen.ModuleFinder.{Module, top, within}
use ansible_course.AnsibleMitogen.ModuleFinder.Same.{module_key, same_module_iff, same_module}
use ansible_course.AnsibleMitogen.ModuleFinder.Scan.{
  Search, visit, add_new, alone, add_parents, offer, offer_all,
}

-- A module is in a list.
abbrev pub In : Module → List Module → Type 0
In m ms = contains ms m ≡ true

pub contains-last :
    (ms : List Module) (m k : Module)
    → contains (ms ++ (m ∷ [])) k ≡ (contains ms k || same_module m k)
unfolding contains
contains-last [] m k = ground arith
contains-last (n ∷ ms) m k = ground (arith, contains-last ms m k)

-- How many of the modules of a list were not seen.
abbrev pub unseen : List Module → List Module → ℕ
unseen [] seen = 0
unseen (u ∷ us) seen = (if contains seen u then 0 else 1) + unseen us seen

unseen-le : (us seen : List Module) (m : Module) → unseen us (m ∷ seen) ≤ unseen us seen
unfolding contains
unseen-le [] seen m = omega arith
unseen-le (u ∷ us) seen m = ground (arith, unseen-le us seen m)

unseen-lt :
    (us seen : List Module) (m : Module)
    → contains seen m ≡ false
    → In m us
    → suc (unseen us (m ∷ seen)) ≤ unseen us seen
unfolding contains
unseen-lt [] seen m n h = ground arith
unseen-lt (u ∷ us) seen m n h =
    ground
      (arith, same_module_iff m u, same_module_iff u m, unseen-le us seen m, unseen-lt us seen m)

-- The parents that `add_parents` adds, by themselves.
abbrev pub tops : Module → List Module
tops (top name path kind) = []
tops (within parent name path kind) = alone parent ∷ tops parent

add_new-In : (m : Module) (s : Search) → In m (add_new m s).seen
unfolding add_new visit contains
add_new-In m s = ground (arith, same_module_iff m m)

-- What is added with the parents has no parent.
add_new-alone :
    (m k : Module) (s : Search) → In k (add_new (alone m) s).seen → In k s.seen ⊎ (tops k ≡ [])
unfolding add_new visit contains
add_new-alone m k s h = elim (Bool-cases (contains s.seen (alone m))) [
  | inl old ↦ inl (ground (arith, h, old))
  | inr new ↦ elim (Bool-cases (same_module (alone m) k)) [
    | inl e ↦ inr (rw (← (same_module_iff (alone m) k).0 e) refl)
    | inr n ↦ inl (ground (arith, h, new, n))
  ]
]

add_parents-alone :
    (m k : Module) (s : Search) → In k (add_parents m s).seen → In k s.seen ⊎ (tops k ≡ [])
unfolding add_parents
add_parents-alone (top name path kind) k s h = inl h
add_parents-alone (within parent name path kind) k s h =
    elim (add_parents-alone parent k (add_new (alone parent) s) h) [
      | inl old ↦ add_new-alone parent k s old
      | inr new ↦ inr new
    ]

-- An offer that was taken up.
abbrev pub Accepts : Option Module → Search → Type 0
Accepts none s = Unit
Accepts (some m) s = In m s.seen

-- With each module that was seen, its parents were.
abbrev pub Full : Search → Type 0
Full s = (m n : Module) → In m s.seen → In n (tops m) → In n s.seen

pub absurd_in {ℓ} : {A : Type ℓ} (n : Module) (ms : List Module) → ms ≡ [] → In n ms → A
unfolding contains
absurd_in n [] e h = cc
absurd_in n (m ∷ ms) e h = cc

module _ (us : List Module) (P : Module → Type 0) (within_us : (m : Module) → P m → In m us) where
  -- What a step adds is of the kind `P`, was not seen before, and waits on the stack.
  pub record Grows (s t : Search) : Type 0 where
    pub more : (k : Module) → In k s.seen → In k t.seen
    pub kept : (k : Module) → In k s.stack → In k t.stack
    pub queued : (k : Module) → In k t.seen → In k s.seen ⊎ (In k t.stack × P k)
    pub waits : (k : Module) → In k t.stack → In k s.stack ⊎ In k t.seen
    pub work : unseen us t.seen + length t.stack ≤ unseen us s.seen + length s.stack

  pub unmoved : (s : Search) → Grows s s
  unmoved s = record {
    more = λ k h. h;
    kept = λ k h. h;
    queued = λ k h. inl h;
    waits = λ k h. inl h;
    work = omega arith;
  }

  pub further : {s t u : Search} → Grows s t → Grows t u → Grows s u
  further {s} {t} {u} g h = record {
    more = λ k e. h.more k (g.more k e);
    kept = λ k e. h.kept k (g.kept k e);
    queued = λ k e. elim (h.queued k e) [
      | inl old ↦ elim (g.queued k old) [ inl older ↦ inl older | inr (w, p) ↦ inr (h.kept k w, p) ]
      | inr new ↦ inr new
    ];
    waits = λ k e. elim (h.waits k e) [
      | inl w ↦ elim (g.waits k w) [ inl older ↦ inl older | inr seen ↦ inr (h.more k seen) ]
      | inr seen ↦ inr seen
    ];
    work = omega (arith, g.work, h.work);
  }

  visit-Grows : (m : Module) (s : Search) → contains s.seen m ≡ false → P m → Grows s (visit m s)
  unfolding visit contains
  visit-Grows m s new p = record {
    more = λ k h. ground (arith, h);
    kept = λ k h. ground (arith, h, contains-last s.stack m k);
    queued = λ k h. elim (Bool-cases (same_module m k)) [
      | inl e ↦
          inr (ground (arith, e, contains-last s.stack m k), subst P ((same_module_iff m k).0 e) p)
      | inr e ↦ inl (ground (arith, h, e))
    ];
    waits = λ k h. elim (Bool-cases (same_module m k)) [
      | inl e ↦ inr (ground (arith, e))
      | inr e ↦ inl (ground (arith, h, e, contains-last s.stack m k))
    ];
    work = omega (arith, unseen-lt us s.seen m new (within_us m p), length-append s.stack (m ∷ []));
  }

  add_new-Grows : (m : Module) (s : Search) → P m → Grows s (add_new m s)
  unfolding add_new
  add_new-Grows m s p = elim (Bool-cases (contains s.seen m)) [
    | inl old ↦ rw old (unmoved s)
    | inr new ↦ rw new (visit-Grows m s new p)
  ]

  add_parents-Grows :
      (m : Module) (s : Search)
      → ((n : Module) → In n (tops m) → P n)
      → Grows s (add_parents m s) × ((n : Module) → In n (tops m) → In n (add_parents m s).seen)
  unfolding add_parents contains
  add_parents-Grows (top name path kind) s h = (unmoved s, λ n e. ground (arith, e))
  add_parents-Grows (within parent name path kind) s h =
      let first =
        add_new-Grows (alone parent) s
          (h (alone parent) (ground (arith, same_module_iff (alone parent) (alone parent)))) in
      let (rest, all_in) =
        add_parents-Grows parent (add_new (alone parent) s) (λ n e. h n (ground (arith, e))) in
      (
        further first rest,
        λ n e. elim (Bool-cases (same_module (alone parent) n)) [
          | inl t ↦ rest.more n (
              subst (λ k. In k (add_new (alone parent) s).seen)
                ((same_module_iff (alone parent) n).0 t) (add_new-In (alone parent) s))
          | inr f ↦ all_in n (ground (arith, e, f))
        ],
      )

  still_taken : (o : Option Module) {s t : Search} → Grows s t → Accepts o s → Accepts o t
  still_taken none g a = tt
  still_taken (some m) g a = g.more m a

  -- What may be offered: a module of the kind `P` whose parents are of that kind too.
  abbrev pub Offered : Option Module → Type 0
  Offered none = Unit
  Offered (some m) = P m × ((n : Module) → In n (tops m) → P n)

  visited :
      (m : Module) (s : Search)
      → contains s.seen m ≡ false
      → Offered (some m)
      → Grows s (add_parents m (visit m s))
        × In m (add_parents m (visit m s)).seen
        × ((n : Module) → In n (tops m) → In n (add_parents m (visit m s)).seen)
  unfolding visit contains
  visited m s new (p, ps) =
      let first = visit-Grows m s new p in
      let (rest, parents) = add_parents-Grows m (visit m s) ps in
      (further first rest, rest.more m (ground (arith, same_module_iff m m)), parents)

  pub offer-Grows :
      (o : Option Module) (s : Search) → Offered o → Grows s (offer o s) × Accepts o (offer o s)
  unfolding offer
  offer-Grows none s h = (unmoved s, tt)
  offer-Grows (some m) s h = elim (Bool-cases (contains s.seen m)) [
    | inl old ↦ rw old (unmoved s, old)
    | inr new ↦ rw new (let (g, here, parents) = visited m s new h in (g, here))
  ]

  pub offer-Full : (o : Option Module) (s : Search) → Offered o → Full s → Full (offer o s)
  unfolding offer visit contains
  offer-Full none s h f = f
  offer-Full (some m) s h f = elim (Bool-cases (contains s.seen m)) [
    | inl old ↦ rw old f
    | inr new ↦ rw new (
        let (g, here, parents) = visited m s new h in
        λ k n e t. elim (add_parents-alone m k (visit m s) e) [
          | inr none_left ↦ absurd_in n (tops k) none_left t
          | inl before ↦ elim (Bool-cases (same_module m k)) [
            | inl same ↦ parents n (rw ((same_module_iff m k).0 same) t)
            | inr other ↦ g.more n (f k n (ground (arith, before, other)) t)
          ]
        ])
  ]

  pub offer_all-Grows :
      (os : List (Option Module)) (s : Search)
      → All Offered os
      → Full s
      → Grows s (offer_all os s) × All (λ o. Accepts o (offer_all os s)) os × Full (offer_all os s)
  unfolding offer_all
  offer_all-Grows [] s h f = (unmoved s, tt, f)
  offer_all-Grows (o ∷ os) s (h, hs) f =
      let (first, accepted) = offer-Grows o s h in
      let (rest, all_accepted, full) = offer_all-Grows os (offer o s) hs (offer-Full o s h f) in
      (further first rest, (still_taken o rest accepted, all_accepted), full)
