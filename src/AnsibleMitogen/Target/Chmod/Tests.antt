-- ===== src/AnsibleMitogen/Target/Chmod/Tests.antt =====
-- mitogen-0.2.9/ansible_mitogen/target.py: modes in the style of chmod(1).
use ansible_course.Base.{ℕ, ◌≡◌, refl}
use ansible_course.Base.Lists.{codes, split, contains, All}
use ansible_course.Base.Dict.{get}
use ansible_course.Base.Bits.{bit}
use ansible_course.AnsibleMitogen.Target.Chmod.{
  mode, key_error, attribute_error, match_clause, apply_mode_spec,
}
use ansible_course.AnsibleMitogen.Target.Chmod.Places.{place}
use ansible_course.AnsibleMitogen.Target.Chmod.Meaning.{IsClause, meaning, apply_mode_spec-bit}

clauses_hold : All IsClause (split b',' (codes "u+x,go-w"))
unfolding split match_clause contains
clauses_hold = (
  record {
    clause = record { who = codes "u"; op = b'+'; perms = codes "x" };
    matched = refl;
    perms = (refl, tt);
  },
  (
    record {
      clause = record { who = codes "go"; op = b'-'; perms = codes "w" };
      matched = refl;
      perms = (refl, tt);
    },
    tt,
  ),
)

apply_mode_spec-bit_example :
    (n : ℕ) × (apply_mode_spec (codes "u+x,go-w") 438 ≡ mode n)
    × ((i : ℕ) → bit i n ≡ meaning (split b',' (codes "u+x,go-w")) (place i) (bit i 438))
apply_mode_spec-bit_example = apply_mode_spec-bit (codes "u+x,go-w") 438 clauses_hold

runs : apply_mode_spec (codes "u+x,go-w") 438 ≡ mode 484
unfolding apply_mode_spec split contains get
runs = refl

copies : apply_mode_spec (codes "g=u") 438 ≡ key_error
unfolding apply_mode_spec split contains get
copies = refl

trailing_comma : apply_mode_spec (codes "u+x,") 438 ≡ attribute_error
unfolding apply_mode_spec split contains get
trailing_comma = refl
