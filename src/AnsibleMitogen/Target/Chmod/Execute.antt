-- ===== src/AnsibleMitogen/Target/Chmod/Execute.antt =====
-- mitogen-0.2.9/ansible_mitogen/target.py: the mode `u+x`.
use ansible_course.Base.{ℕ, Bool, ◌||◌, ◌≡◌, refl, ap, ◌∙◌, arith, nat_key, ◌==◌}
use ansible_course.Base.Lists.{All, contains, codes, split}
use ansible_course.Base.Bits.{bit}
use ansible_course.AnsibleMitogen.Target.Chmod.{
  match_clause, text, chmod_to, set_file_mode, symbolic, is_digits,
}
use ansible_course.AnsibleMitogen.Target.Chmod.Places.{place, digit_cases}
use ansible_course.AnsibleMitogen.Target.Chmod.Meaning.{IsClause, meaning, apply_mode_spec-bit}

one-IsClause : All IsClause (split b',' (codes "u+x"))
unfolding split match_clause contains
one-IsClause = (
  record {
    clause = record { who = codes "u"; op = b'+'; perms = codes "x" };
    matched = refl;
    perms = (refl, tt);
  },
  tt,
)

meaning-owner :
    (i : ℕ) (was : Bool) → meaning (split b',' (codes "u+x")) (place i) was ≡ ((i == 6) || was)
unfolding split match_clause contains
meaning-owner =
    digit_cases _
      (
        λ was. refl,
        (
          λ was. refl,
          (
            λ was. refl,
            (
              λ was. refl,
              (λ was. refl, (λ was. refl, (λ was. refl, (λ was. refl, (λ was. refl, tt))))),
            ),
          ),
        ),
      )
      (λ i was. ground arith)

-- The owner may execute, and no other digit of the mode changes.
pub set_file_mode-execute :
    (m : ℕ)
    → (n : ℕ) × (set_file_mode (text (codes "u+x")) m ≡ chmod_to n)
      × ((i : ℕ) → bit i n ≡ ((i == 6) || bit i m))
unfolding set_file_mode is_digits
set_file_mode-execute m =
    let (n, e, each) = apply_mode_spec-bit (codes "u+x") m one-IsClause in
    (n, ap symbolic e, λ i. each i ∙ meaning-owner i (bit i m))
