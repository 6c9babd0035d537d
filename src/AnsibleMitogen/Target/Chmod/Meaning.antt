-- ===== src/AnsibleMitogen/Target/Chmod/Meaning.antt =====
-- mitogen-0.2.9/ansible_mitogen/target.py: what a symbolic mode does to each permission of a file.
use ansible_course.Base.{
  ℕ, Bool, true, Text, Option, none, some, List, [], ◌∷◌, ◌≡◌, refl, ap, ◌∙◌, arith, nat_key,
  Bool-cases, inl, inr,
}
use ansible_course.Base.Lists.{All, contains, codes, split}
use ansible_course.Base.Bits.{bit, bit-zero}
use ansible_course.Base.Dict.{get}
use ansible_course.AnsibleMitogen.Target.Chmod.{
  chmod_masks, chmod_bits, Clause, match_clause, mode, combine, run_of, op_of, apply_class,
  apply_classes, or_all, apply_clauses, apply_mode_spec,
}
use ansible_course.AnsibleMitogen.Target.Chmod.Places.{
  place, changed, mask-bit, IsPerm, IsClass, is_some-some, class_found, or_bits-bit, combine-bit,
}

apply_class-bit :
    (op : ℕ) (perms : Text) (ch m : ℕ)
    → IsClass ch
    → All IsPerm perms
    → (n : ℕ) × (apply_class op perms ch m ≡ mode n)
      × ((i : ℕ) → bit i n ≡ changed op perms ch (place i) (bit i m))
unfolding apply_class
apply_class-bit op perms ch m is_class all =
    let (mask, e) = is_some-some (get chmod_masks ch) (class_found ch is_class).0 in
    let (bits, d) = is_some-some (get chmod_bits ch) (class_found ch is_class).1 in
    let (new, r, each) = or_bits-bit ch bits perms 0 d all in
    (
      combine op mask new m,
      rw (e, d, r) refl,
      λ i.
          combine-bit op mask new m i ch perms (mask-bit ch mask e i)
            (ground (arith, each i, bit-zero i)),
    )

-- The classes of a clause, and the clauses of a specification, one after the other.
abbrev pub changed_each : ℕ → Text → Text → Option (ℕ × ℕ) → Bool → Bool
changed_each op perms [] at was = was
changed_each op perms (ch ∷ who) at was = changed_each op perms who at (changed op perms ch at was)

abbrev pub changed_by : Option Clause → Option (ℕ × ℕ) → Bool → Bool
changed_by none at was = was
changed_by (some c) at was = changed_each c.op c.perms (or_all c.who) at was

abbrev pub meaning : List Text → Option (ℕ × ℕ) → Bool → Bool
meaning [] at was = was
meaning (clause ∷ clauses) at was = meaning clauses at (changed_by (match_clause clause) at was)

apply_classes-bit :
    (op : ℕ) (perms who : Text) (m : ℕ)
    → All IsClass who
    → All IsPerm perms
    → (n : ℕ) × (apply_classes op perms who m ≡ mode n)
      × ((i : ℕ) → bit i n ≡ changed_each op perms who (place i) (bit i m))
unfolding apply_classes
apply_classes-bit op perms [] m all_class all = (m, refl, λ i. refl)
apply_classes-bit op perms (ch ∷ who) m (is_class, all_class) all =
    let (k, e, first) = apply_class-bit op perms ch m is_class all in
    let (n, r, each) = apply_classes-bit op perms who k all_class all in
    (n, rw e r, λ i. each i ∙ ap (changed_each op perms who (place i)) (first i))

-- A clause that matches and copies no class's permissions.
pub record IsClause (t : Text) : Type 0 where
  pub clause : Clause
  pub matched : match_clause t ≡ some clause
  pub perms : All IsPerm clause.perms

-- The letters that a match takes for classes are classes.
run_of-All : (set s : Text) → All (λ c. contains set c ≡ true) (run_of set s).0
unfolding run_of
run_of-All set [] = tt
run_of-All set (c ∷ s) = elim (Bool-cases (contains set c)) [
  | inl t ↦ rw t (t, run_of-All set s)
  | inr f ↦ rw f tt
]

or_all-classes : (who : Text) → All IsClass who → All IsClass (or_all who)
unfolding contains
or_all-classes [] all = (refl, tt)
or_all-classes (ch ∷ who) all = all

abbrev who_of : Option Clause → Text
who_of none = []
who_of (some c) = or_all c.who

op_of-classes :
    (who rest : Text) (c : Clause)
    → All IsClass who
    → op_of who rest ≡ some c
    → All IsClass (or_all c.who)
unfolding op_of
op_of-classes who [] c all e = cc e
op_of-classes who (d ∷ rest) c all e = elim (Bool-cases (contains (codes "+-=") d)) [
  | inl t ↦ let same = ap who_of (rw t at e) in rw (← same) (or_all-classes who all)
  | inr f ↦ cc (rw f at e)
]

match_clause-classes :
    (t : Text) (c : Clause) → match_clause t ≡ some c → All IsClass (or_all c.who)
unfolding match_clause
match_clause-classes t c h =
    let (who, rest) = run_of (codes "uoga") t in
    op_of-classes who rest c (run_of-All (codes "uoga") t) h

apply_clauses-bit :
    (clauses : List Text) (m : ℕ)
    → All IsClause clauses
    → (n : ℕ) × (apply_clauses clauses m ≡ mode n)
      × ((i : ℕ) → bit i n ≡ meaning clauses (place i) (bit i m))
unfolding apply_clauses
apply_clauses-bit [] m all = (m, refl, λ i. refl)
apply_clauses-bit (t ∷ clauses) m (is_clause, all) =
    let c = is_clause.clause in
    let (k, e, first) =
      apply_classes-bit c.op c.perms (or_all c.who) m (match_clause-classes t c is_clause.matched)
        is_clause.perms in
    let (n, r, each) = apply_clauses-bit clauses k all in
    (
      n,
      rw (is_clause.matched, e) r,
      λ i. each i ∙ ap (meaning clauses (place i)) (rw is_clause.matched (first i)),
    )

-- A specification whose clauses all match, none copying another class's permissions, is applied
-- without an error, and then each of the nine permissions is what chmod(1) makes of it, clause by
-- clause and class by class, and all other digits of the mode stay.
pub apply_mode_spec-bit :
    (spec : Text) (m : ℕ)
    → All IsClause (split b',' spec)
    → (n : ℕ) × (apply_mode_spec spec m ≡ mode n)
      × ((i : ℕ) → bit i n ≡ meaning (split b',' spec) (place i) (bit i m))
unfolding apply_mode_spec
apply_mode_spec-bit spec m all = apply_clauses-bit (split b',' spec) m all
