-- ===== src/Base/Dict.antt =====
-- Python dictionaries in insertion order, and what a write or a deletion does to a read.
use mathlib.Core.Path.{◌≡◌, refl}
use mathlib.Core.Bool.{Bool, true, false}
use mathlib.Core.List.{List, [], ◌∷◌}
use mathlib.Core.Option.{Option, none, some}
use native.Mathlib.Omega.{arith}
use ansible_course.Base.Tests.{Key, ◌==◌, if◌then◌else◌}

abbrev pub Dict {ℓ κ} : Type ℓ → Type κ → Type (ℓ ⊔ κ)
Dict K V = List (K × V)

abbrev pub is_some {ℓ} : {A : Type ℓ} → Option A → Bool
is_some none = false
is_some (some _) = true

module _ {ℓ κ} {K : Type ℓ} {V : Type κ} ⦃e : Key K⦄ where
  -- `d.get(k)`
  unfoldable pub get : Dict K V → K → Option V
  get [] k = none
  get ((j, v) ∷ d) k = if j == k then some v else get d k

  -- `d[k] = v`
  unfoldable pub set_item : Dict K V → K → V → Dict K V
  set_item [] k v = (k, v) ∷ []
  set_item ((j, w) ∷ d) k v = if j == k then (j, v) ∷ d else (j, w) ∷ set_item d k v

  -- `d.pop(k, None)`; `del d[k]` where the key is there
  unfoldable pub del_item : Dict K V → K → Dict K V
  del_item [] k = []
  del_item ((j, w) ∷ d) k = let rest = del_item d k in if j == k then rest else (j, w) ∷ rest

  pub get-set_item :
      (d : Dict K V) (k : K) (v : V) (j : K)
      → get (set_item d k v) j ≡ (if k == j then some v else get d j)
  unfolding get set_item
  get-set_item [] k v j = refl
  get-set_item ((i, w) ∷ d) k v j =
      ground (arith, e.same_iff k j, e.same_iff i k, e.same_iff i j, get-set_item d k v j)

  pub get-del_item :
      (d : Dict K V) (k j : K) → get (del_item d k) j ≡ (if k == j then none else get d j)
  unfolding get del_item
  get-del_item [] k j = ground arith
  get-del_item ((i, w) ∷ d) k j =
      ground (arith, e.same_iff k j, e.same_iff i k, e.same_iff i j, get-del_item d k j)

module _ {ℓ} {K : Type ℓ} ⦃e : Key K⦄ where
  pub same_refl : (k : K) → (k == k) ≡ true
  same_refl k = (e.same_iff k k).1 refl

module _ {ℓ κ} {K : Type ℓ} {V : Type κ} ⦃e : Key K⦄ where
  pub get-set_self : (d : Dict K V) (k : K) (v : V) → get (set_item d k v) k ≡ some v
  get-set_self d k v = rw (get-set_item, same_refl k) refl
