-- ===== src/VersionFilter/Latest.antt =====
-- filter_plugins/my_filters.py: which tag `latest_version` answers.
use mathlib.Core.List.{
  Mem, Pairwise, Perm, mem-cons, mem-reverse, not-mem-nil, Pairwise-reverse, Pairwise-cons,
}
use mathlib.Core.List.Perm
use mathlib.Core.Logic.Or
use ansible_course.Base.{
  ℕ, Bool, false, Text, List, [], ◌∷◌, ◌≡◌, ◌≢◌, refl, sym, ap, ◌∙◌, ◌↔◌, ◌⊎◌, inl, inr, reverse,
  ◌==◌, nat_key, if◌then◌else◌, Bool-cases, nat_same_iff,
}
use ansible_course.Base.Lists.{length, split, split-ne-nil}
use ansible_course.VersionFilter.{Outcome, returned, attribute_error, is_tag, scan, latest_version}

-- What `natsort` documents of `natsorted`: the same lines, in the order that `Le` is.
pub record IsNatsort (natsorted : List Text → List Text) (Le : Text → Text → Type 0) : Type 0 where
  pub same_lines : (ts : List Text) → Perm (natsorted ts) ts
  pub ordered : (ts : List Text) → Pairwise Le (natsorted ts)
  pub le_refl : (t : Text) → Le t t
  pub le_prop : (t u : Text) → IsProp (Le t u)

-- The last entry of a list, or what stands in for it.
abbrev last_or : Text → List Text → Text
last_or t [] = t
last_or _ (t ∷ ts) = last_or t ts

not_five : (t u : Text) → (length t == 5) ≡ false → u ≡ t → length u ≢ 5
not_five t u other e l = cc (other, (nat_same_iff (length t) 5).1 (sym (ap length e) ∙ l))

last_or-mem : (t : Text) (ts : List Text) → Mem (last_or t ts) (t ∷ ts)
last_or-mem t [] = mem-cons.1 (Or.inl refl)
last_or-mem t (u ∷ ts) = mem-cons.1 (Or.inr (last_or-mem u ts))

module _ (natsorted : List Text → List Text) (is_digit : ℕ → Bool) (Le : Text → Text → Type 0)
    (sorts : IsNatsort natsorted Le) where
  -- `t` is a greatest line of five characters, and the outcome is `t` or, if it is no tag, the error.
  abbrev pub Greatest : List Text → Outcome → Type 0
  Greatest ts o =
      (t : Text) × Mem t ts
      × (length t ≡ 5)
      × ((u : Text) → Mem u ts → length u ≡ 5 → Le u t)
      × (o ≡ (if is_tag natsorted is_digit t then returned t else attribute_error))

  -- No line has five characters, and the outcome is a least line.
  abbrev pub Least : List Text → Outcome → Type 0
  Least ts o =
      (t : Text) × Mem t ts × ((u : Text) → Mem u ts → (length u ≢ 5) × Le t u) × (o ≡ returned t)

  scan_cases :
      (acc : Text) (ts : List Text)
      → Pairwise (λ t u. Le u t) ts
      → Greatest ts (scan natsorted is_digit acc ts)
        ⊎ (((u : Text) → Mem u ts → length u ≢ 5)
            × (scan natsorted is_digit acc ts ≡ returned (last_or acc ts)))
  unfolding scan
  scan_cases acc [] p = inr (λ u m. absurd (not-mem-nil m), refl)
  scan_cases acc (t ∷ ts) p = elim (Bool-cases (length t == 5)) [
    | inl five ↦ inl (
      t,
      mem-cons.1 (Or.inl refl),
      (nat_same_iff _ _).0 five,
      λ u m _.
          Or.elim (sorts.le_prop u t) (mem-cons.0 m) (λ e. rw e (sorts.le_refl t))
            (λ m'. (Pairwise-cons.0 p).0 u m'),
      rw five,
    )
    | inr other ↦ elim (scan_cases t ts (Pairwise-cons.0 p).1) [
      | inl (v, m, five, most, e) ↦ inl (
        v,
        mem-cons.1 (Or.inr m),
        five,
        λ u m' l.
            Or.elim (sorts.le_prop u v) (mem-cons.0 m') (λ eq. absurd (not_five t u other eq l))
              (λ mu. most u mu l),
        rw other e,
      )
      | inr (none_five, e) ↦ inr (
        λ u m l.
            Or.elim (λ x. absurd x) (mem-cons.0 m) (λ eq. not_five t u other eq l)
              (λ mu. none_five u mu l),
        rw other e,
      )
    ]
  ]

  last_or-least :
      (t : Text) (ts : List Text)
      → Pairwise (λ t u. Le u t) (t ∷ ts)
      → (u : Text) → Mem u (t ∷ ts)
      → Le (last_or t ts) u
  last_or-least t [] p u m =
      Or.elim (sorts.le_prop t u) (mem-cons.0 m) (λ e. rw e (sorts.le_refl t))
        (λ m'. absurd (not-mem-nil m'))
  last_or-least t (v ∷ ts) p u m =
      Or.elim (sorts.le_prop (last_or v ts) u) (mem-cons.0 m)
        (λ e. rw e ((Pairwise-cons.0 p).0 (last_or v ts) (last_or-mem v ts)))
        (last_or-least v ts (Pairwise-cons.0 p).1 u)

  mem_lines : (u : Text) (ts : List Text) → Mem u (reverse (natsorted ts)) ↔ Mem u ts
  mem_lines u ts = (
    λ m. (Perm.mem_iff (sorts.same_lines ts)).0 (mem-reverse.0 m),
    λ m. mem-reverse.1 ((Perm.mem_iff (sorts.same_lines ts)).1 m),
  )

  -- The loop over a list of lines that descends and has the lines of `ts`.
  scan-lines :
      (acc : Text) (ts res : List Text)
      → ((u : Text) → Mem u res ↔ Mem u ts)
      → Pairwise (λ t u. Le u t) res
      → ts ≢ []
      → Greatest ts (scan natsorted is_digit acc res) ⊎ Least ts (scan natsorted is_digit acc res)
  scan-lines acc [] res same p ne = absurd (ne refl)
  scan-lines acc (t ∷ ts) [] same p ne =
      absurd (not-mem-nil ((same t).1 (mem-cons.1 (Or.inl refl))))
  scan-lines acc (t ∷ ts) (r ∷ res) same p ne = elim (scan_cases acc (r ∷ res) p) [
    | inl (v, m, five, most, e) ↦ inl (v, (same v).0 m, five, λ u m' l. most u ((same u).1 m') l, e)
    | inr (none_five, e) ↦ inr (
      last_or r res,
      (same (last_or r res)).0 (last_or-mem r res),
      λ u m. (none_five u ((same u).1 m), last_or-least r res p u ((same u).1 m)),
      e,
    )
  ]

  -- Let `natsorted` put the lines in an order `Le`. Then `latest_version` looks at a greatest of the
  -- lines that have five characters, and returns it if it is a tag like `v12.3` and raises
  -- `AttributeError` if not; if no line has five characters it returns a least line of all.
  pub latest_version_cases :
      (text : Text)
      → Greatest (split 10 text) (latest_version natsorted is_digit text)
        ⊎ Least (split 10 text) (latest_version natsorted is_digit text)
  unfolding latest_version
  latest_version_cases text =
      scan-lines text (split 10 text) (reverse (natsorted (split 10 text)))
        (λ u. mem_lines u (split 10 text))
        ((Pairwise-reverse (λ t u. sorts.le_prop u t)).1 (sorts.ordered (split 10 text)))
        (split-ne-nil 10 text)
