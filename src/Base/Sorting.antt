-- ===== src/Base/Sorting.antt =====
-- A stable sort by a numeric key: what stands in for the sorts of third parties in the examples.
use mathlib.Core.List.{Pairwise, Perm, mem-cons, not-mem-nil, Pairwise-cons}
use mathlib.Core.List.Perm
use mathlib.Core.Logic.Or
use native.Mathlib.Bridge.{le_prop}
use native.Mathlib.Nat.{le_trans}
use ansible_course.Base.Tests.{leb, leb→le, if◌then◌else◌, Bool-cases}
use Prim.Native.Nat.{ℕ, ◌≤◌}
use mathlib.Core.Logic.{inl, inr}
use mathlib.Core.List.{List, [], ◌∷◌}
use native.Mathlib.Omega.{arith}

module _ {A : Type 0} (key : A → ℕ) where
  unfoldable pub insert_by : A → List A → List A
  insert_by x [] = x ∷ []
  insert_by x (y ∷ ys) =
      let rest = insert_by x ys in if leb (key x) (key y) then x ∷ y ∷ ys else y ∷ rest

  unfoldable pub sort_by : List A → List A
  unfolding insert_by
  sort_by [] = []
  sort_by (x ∷ xs) = insert_by x (sort_by xs)

  insert_by-perm : (x : A) (ys : List A) → Perm (insert_by x ys) (x ∷ ys)
  unfolding insert_by
  insert_by-perm x [] = Perm.refl _
  insert_by-perm x (y ∷ ys) = elim (Bool-cases (leb (key x) (key y))) [
    | inl le ↦ rw le (Perm.refl _)
    | inr gt ↦ rw gt (Perm.trans (Perm.cons y (insert_by-perm x ys)) (Perm.swap _ _ _))
  ]

  pub sort_by-perm : (xs : List A) → Perm (sort_by xs) xs
  unfolding sort_by
  sort_by-perm [] = Perm.refl _
  sort_by-perm (x ∷ xs) = Perm.trans (insert_by-perm x (sort_by xs)) (Perm.cons x (sort_by-perm xs))

  insert_by-ordered :
      (x : A) (ys : List A)
      → Pairwise (λ a b. key a ≤ key b) ys
      → Pairwise (λ a b. key a ≤ key b) (insert_by x ys)
  unfolding insert_by
  insert_by-ordered x [] p = Pairwise-cons.1 (λ u m. absurd (not-mem-nil m), p)
  insert_by-ordered x (y ∷ ys) p = elim (Bool-cases (leb (key x) (key y))) [
    | inl le ↦ rw le (
        Pairwise-cons.1 (
          λ u m.
              Or.elim le_prop (mem-cons.0 m) (λ e. rw e (leb→le _ _ le))
                (λ m'. le_trans (leb→le _ _ le) ((Pairwise-cons.0 p).0 u m')),
          p,
        ))
    | inr gt ↦ rw gt (
        Pairwise-cons.1 (
          λ u m.
              Or.elim le_prop (mem-cons.0 ((Perm.mem_iff (insert_by-perm x ys)).0 m))
                (λ e. rw e (ground arith)) ((Pairwise-cons.0 p).0 u),
          insert_by-ordered x ys (Pairwise-cons.0 p).1,
        ))
  ]

  pub sort_by-ordered : (xs : List A) → Pairwise (λ a b. key a ≤ key b) (sort_by xs)
  unfolding sort_by
  sort_by-ordered [] = Pairwise.nil
  sort_by-ordered (x ∷ xs) = insert_by-ordered x (sort_by xs) (sort_by-ordered xs)
