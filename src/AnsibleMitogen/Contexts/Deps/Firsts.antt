-- ===== src/AnsibleMitogen/Contexts/Deps/Firsts.antt =====
-- mitogen-0.2.9/ansible_mitogen/services.py: what the cache of `ModuleDepService.scan` answers.
use mathlib.Core.Path.{subst}
use ansible_course.Base.{
  Bool-cases, true, false, nat_key, Text, Option, none, some, List, [], ◌∷◌, ◌++◌, ◌==◌, ◌≡◌, refl,
  sym, ap, ◌∙◌, inl, inr, arith, Option-cases, if◌then◌else◌,
}
use ansible_course.Base.Dict.{get, set_item, get-set_item}
use ansible_course.AnsibleMitogen.Contexts.Lookup.{
  Resolved, begins_with, get_builtin_names, get_custom_tups,
}
use ansible_course.AnsibleMitogen.Contexts.Deps.{
  Request, ScanKey, same_key_iff, scan_key, key_of, Deps, Cache, fresh, answer, scan, scan_all,
}

-- The first of some requests with a key.
abbrev pub first_with : ScanKey → List Request → Option Request
first_with k [] = none
first_with k (r ∷ rs) = if key_of r == k then some r else first_with k rs

-- The first request with the key of one, itself if it is the first.
abbrev pub first_like : Request → Option Request → Request
first_like r none = r
first_like r (some earlier) = earlier

-- The first requests with the keys of some, behind others.
abbrev pub firsts : List Request → List Request → List Request
firsts seen [] = []
firsts seen (r ∷ rs) = first_like r (first_with (key_of r) seen) ∷ firsts (seen ++ (r ∷ [])) rs

first_with-append :
    (k : ScanKey) (seen : List Request) (r : Request)
    → first_with k (seen ++ (r ∷ [])) ≡ (elim (first_with k seen) [
      | some e ↦ some e
      | none ↦ if key_of r == k then some r else none
    ])
first_with-append k [] r = refl
first_with-append k (s ∷ seen) r = ground (arith, first_with-append k seen r)

abbrev map_option {ℓ κ} : {A : Type ℓ} {B : Type κ} → (A → B) → Option A → Option B
map_option f none = none
map_option f (some a) = some (f a)

abbrev pub each_fresh : (Request → Deps) → List Request → List Deps
each_fresh f [] = []
each_fresh f (r ∷ rs) = f r ∷ each_fresh f rs

module _ (resolve : Text → Text → List Text → List Resolved) (abspath : Text → Text) where
  Cached : List Request → Cache → Type 0
  Cached seen cache =
      (k : ScanKey) → get cache k ≡ map_option (fresh resolve abspath) (first_with k seen)

  After : List Request → Request → Deps × Cache → Type 0
  After seen r x =
      (x.0 ≡ fresh resolve abspath (first_like r (first_with (key_of r) seen)))
      × Cached (seen ++ (r ∷ [])) x.1

  added :
      (seen : List Request) (cache : Cache) (r : Request)
      → Cached seen cache
      → first_with (key_of r) seen ≡ none
      → Cached (seen ++ (r ∷ [])) (set_item cache (key_of r) (fresh resolve abspath r))
  unfolding Cached
  added seen cache r h new k = ground (
    arith,
    h k,
    new,
    get-set_item cache (key_of r) (fresh resolve abspath r) k,
    first_with-append k seen r,
    same_key_iff (key_of r) k,
  )

  unchanged :
      (seen : List Request) (cache : Cache) (r e : Request)
      → Cached seen cache
      → first_with (key_of r) seen ≡ some e
      → Cached (seen ++ (r ∷ [])) cache
  unfolding Cached
  unchanged seen cache r e h old k =
      ground (arith, h k, old, first_with-append k seen r, same_key_iff (key_of r) k)

  scan-After :
      (seen : List Request) (cache : Cache) (r : Request)
      → Cached seen cache
      → After seen r (scan resolve abspath r cache)
  unfolding After Cached scan
  scan-After seen cache r h = elim (Option-cases (first_with (key_of r) seen)) [
    | inl new ↦
        let miss : get cache (key_of r) ≡ none =
          h (key_of r) ∙ ap (map_option (fresh resolve abspath)) new in
        subst (After seen r) (sym (ap (λ o. answer resolve abspath r o cache) miss))
          (sym (ap (λ o. fresh resolve abspath (first_like r o)) new), added seen cache r h new)
    | inr (e, old) ↦
        let hit : get cache (key_of r) ≡ some (fresh resolve abspath e) =
          h (key_of r) ∙ ap (map_option (fresh resolve abspath)) old in
        subst (After seen r) (sym (ap (λ o. answer resolve abspath r o cache) hit)) (
          sym (ap (λ o. fresh resolve abspath (first_like r o)) old),
          unchanged seen cache r e h old,
        )
  ]

  scan_all_from :
      (rs seen : List Request) (cache : Cache)
      → Cached seen cache
      → scan_all resolve abspath rs cache ≡ each_fresh (fresh resolve abspath) (firsts seen rs)
  unfolding scan_all After
  scan_all_from [] seen cache h = refl
  scan_all_from (r ∷ rs) seen cache h =
      let (e, next) = scan-After seen cache r h in
      rw (e, scan_all_from rs (seen ++ (r ∷ [])) (scan resolve abspath r cache).1 next) refl

-- A path below a directory, as a text.
abbrev pub IsBelow : Text → Text → Type 0
IsBelow directory path = (rest : Text) × (path ≡ directory ++ rest)

-- The resolved modules sorted: the names of those whose absolute path is below the directory of the
-- builtin modules, and the others as they were resolved, both in the order of the scan.
pub data Sorts (abspath : Text → Text) (directory : Text)
    : List Resolved → List Text → List Resolved → Type 0 where
  nothing : Sorts abspath directory [] [] []
  is_builtin :
      {r : Resolved} {resolved tups : List Resolved} {names : List Text}
      → IsBelow directory (abspath r.path)
      → Sorts abspath directory resolved names tups
      → Sorts abspath directory (r ∷ resolved) (r.fullname ∷ names) tups
  is_custom :
      {r : Resolved} {resolved tups : List Resolved} {names : List Text}
      → ¬ IsBelow directory (abspath r.path)
      → Sorts abspath directory resolved names tups
      → Sorts abspath directory (r ∷ resolved) names (r ∷ tups)

begins_with-IsBelow : (d path : Text) → begins_with d path ≡ true → IsBelow d path
unfolding begins_with
begins_with-IsBelow [] path h = (path, refl)
begins_with-IsBelow (c ∷ d) [] h = cc
begins_with-IsBelow (c ∷ d) (e ∷ path) h =
    let same : (c ≡ e) × (begins_with d path ≡ true) = ground (arith, h) in
    let (rest, eq) = begins_with-IsBelow d path same.1 in (rest, rw (same.0, eq) refl)

begins_with-append : (d rest : Text) → begins_with d (d ++ rest) ≡ true
unfolding begins_with
begins_with-append [] rest = refl
begins_with-append (c ∷ d) rest = ground (arith, begins_with-append d rest)

not_IsBelow : (d path : Text) → begins_with d path ≡ false → ¬ IsBelow d path
not_IsBelow d path h (rest, eq) = cc (begins_with-append d rest, eq, h)

tups-Sorts :
    (abspath : Text → Text) (d : Text) (resolved : List Resolved)
    → Sorts abspath d resolved
        (get_builtin_names abspath d resolved)
        (get_custom_tups abspath d resolved)
unfolding get_builtin_names get_custom_tups
tups-Sorts abspath d [] = nothing
tups-Sorts abspath d (r ∷ resolved) =
    let rest = tups-Sorts abspath d resolved in
    elim (Bool-cases (begins_with d (abspath r.path))) [
      | inl h ↦ rw h (is_builtin (begins_with-IsBelow d (abspath r.path) h) rest)
      | inr h ↦ rw h (is_custom (not_IsBelow d (abspath r.path) h) rest)
    ]

-- Each answer is what the scan of its request finds, sorted.
abbrev pub Scanned :
    (Text → Text → List Text → List Resolved) → (Text → Text) → List Request → List Deps → Type 0
Scanned resolve abspath [] [] = Unit
Scanned resolve abspath [] (_ ∷ _) = ⊥
Scanned resolve abspath (_ ∷ _) [] = ⊥
Scanned resolve abspath (r ∷ rs) (d ∷ ds) =
    Sorts abspath (abspath r.builtin_path)
      (resolve r.module_name r.module_path (r.search_path ++ (r.builtin_path ∷ []))) d.builtin
      d.custom
    × Scanned resolve abspath rs ds

fresh-Scanned :
    (resolve : Text → Text → List Text → List Resolved) (abspath : Text → Text) (rs : List Request)
    → Scanned resolve abspath rs (each_fresh (fresh resolve abspath) rs)
unfolding fresh
fresh-Scanned resolve abspath [] = tt
fresh-Scanned resolve abspath (r ∷ rs) =
    (tups-Sorts abspath (abspath r.builtin_path) _, fresh-Scanned resolve abspath rs)

-- The answer to each of any requests sorts the modules that a scan resolves: the name alone of one whose
-- absolute path begins with the absolute builtin path, and the name, the path as it was found and the
-- kind of any other, in their order. The scan is that of the first request with the same module name and
-- search path: a later one with another path of the module or of the builtin modules has the earlier
-- answer.
pub scan_all-firsts :
    (resolve : Text → Text → List Text → List Resolved) (abspath : Text → Text) (rs : List Request)
    → Scanned resolve abspath (firsts [] rs) (scan_all resolve abspath rs [])
unfolding get Cached
scan_all-firsts resolve abspath rs =
    subst (Scanned resolve abspath (firsts [] rs))
      (sym (scan_all_from resolve abspath rs [] [] (λ k. refl)))
      (fresh-Scanned resolve abspath (firsts [] rs))
