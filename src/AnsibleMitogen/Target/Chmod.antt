-- ===== src/AnsibleMitogen/Target/Chmod.antt =====
-- mitogen-0.2.9/ansible_mitogen/target.py: symbolic file modes, in the style of chmod(1).
pub mod Places
pub mod Meaning
pub mod Execute
mod Tests
use Prim.Native.Nat.{bit_and, bit_or}
use ansible_course.Base.{
  ℕ, zero, suc, ◌+◌, ◌-◌, ◌*◌, Bool, true, false, Text, Option, none, some, List, [], ◌∷◌, ◌==◌,
  leb, ◌&&◌, nat_key, if◌then◌else◌,
}
use ansible_course.Base.Lists.{codes, contains, split}
use ansible_course.Base.Bits.{and_not}
use ansible_course.Base.Dict.{Dict, get}

-- `CHMOD_MASKS`
abbrev pub chmod_masks : Dict ℕ ℕ
chmod_masks = (b'u', 448) ∷ (b'g', 56) ∷ (b'o', 7) ∷ (b'a', 511) ∷ []

-- `CHMOD_BITS`
abbrev pub chmod_bits : Dict ℕ (Dict ℕ ℕ)
chmod_bits =
    (b'u', (b'r', 256) ∷ (b'w', 128) ∷ (b'x', 64) ∷ [])
    ∷ (b'g', (b'r', 32) ∷ (b'w', 16) ∷ (b'x', 8) ∷ [])
    ∷ (b'o', (b'r', 4) ∷ (b'w', 2) ∷ (b'x', 1) ∷ [])
    ∷ (b'a', (b'r', 292) ∷ (b'w', 146) ∷ (b'x', 73) ∷ [])
    ∷ []

-- `[…]*`: the longest beginning of such characters, and the rest.
pub run_of : Text → Text → Text × Text
run_of set [] = ([], [])
run_of set (c ∷ s) =
    let (taken, rest) = run_of set s in if contains set c then (c ∷ taken, rest) else ([], c ∷ s)

-- The groups of `CHMOD_CLAUSE_PAT.match`
pub record Clause : Type 0 where
  pub who : Text
  pub op : ℕ
  pub perms : Text

-- `[ugo]|[rwx]*`
pub perms_of : Text → Text
unfolding run_of
perms_of [] = []
perms_of (c ∷ s) = if contains (codes "ugo") c then c ∷ [] else (run_of (codes "rwx") (c ∷ s)).0

op_of : Text → Text → Option Clause
unfolding perms_of
op_of who [] = none
op_of who (c ∷ s) =
    if contains (codes "+-=") c
    then some (record { who = who; op = c; perms = perms_of s })
    else none

pub match_clause : Text → Option Clause
unfolding op_of run_of
match_clause clause = let (who, rest) = run_of (codes "uoga") clause in op_of who rest

-- `AttributeError` where the clause does not match, `KeyError` where a permission is no key.
pub data Mode : Type 0 where
  mode : ℕ → Mode
  attribute_error key_error : Mode

abbrev pub and_then : Mode → (ℕ → Mode) → Mode
and_then (mode m) f = f m
and_then attribute_error f = attribute_error
and_then key_error f = key_error

-- `reduce(operator.or_, (bits[p] for p in perms), 0)`
pub or_bits : Dict ℕ ℕ → ℕ → Text → Mode
or_bits bits acc [] = mode acc
or_bits bits acc (p ∷ perms) = elim (get bits p) [
  | none ↦ key_error
  | some b ↦ or_bits bits (bit_or acc b) perms
]

abbrev pub combine : ℕ → ℕ → ℕ → ℕ → ℕ
combine op mask new_perm_bits m =
    let cur_perm_bits = bit_and m mask in
    let cleared = and_not m mask in
    if op == b'='
    then bit_or cleared new_perm_bits
    else if op == b'+'
    then bit_or cleared (bit_or new_perm_bits cur_perm_bits)
    else bit_or cleared (and_not cur_perm_bits new_perm_bits)

-- The round of the inner loop for one class of users.
abbrev pub apply_found : ℕ → Text → Option ℕ → Option (Dict ℕ ℕ) → ℕ → Mode
apply_found op perms (some mask) (some bits) m =
    and_then (or_bits bits 0 perms) λ new_perm_bits. mode (combine op mask new_perm_bits m)
apply_found op perms _ _ m = key_error

pub apply_class : ℕ → Text → ℕ → ℕ → Mode
unfolding or_bits
apply_class op perms ch m = apply_found op perms (get chmod_masks ch) (get chmod_bits ch) m

pub apply_classes : ℕ → Text → Text → ℕ → Mode
unfolding apply_class
apply_classes op perms [] m = mode m
apply_classes op perms (ch ∷ who) m =
    and_then (apply_class op perms ch m) (apply_classes op perms who)

-- `who or 'a'`
abbrev pub or_all : Text → Text
or_all [] = b'a' ∷ []
or_all (c ∷ who) = c ∷ who

abbrev pub apply_match : Option Clause → ℕ → Mode
apply_match none m = attribute_error
apply_match (some c) m = apply_classes c.op c.perms (or_all c.who) m

pub apply_clauses : List Text → ℕ → Mode
unfolding match_clause apply_classes
apply_clauses [] m = mode m
apply_clauses (clause ∷ clauses) m =
    and_then (apply_match (match_clause clause) m) (apply_clauses clauses)

-- `apply_mode_spec`
pub apply_mode_spec : Text → ℕ → Mode
unfolding apply_clauses
apply_mode_spec spec m = apply_clauses (split b',' spec) m

-- `spec.isdigit()` of a byte string, and `int(spec, 8)`, which raises `ValueError` for a digit above 7.
is_digits : Text → Bool
is_digits [] = true
is_digits (c ∷ s) = (leb b'0' c && leb c b'9') && is_digits s

octal_from : ℕ → Text → Option ℕ
octal_from acc [] = some acc
octal_from acc (c ∷ s) =
    let rest = octal_from (acc * 8 + (c - b'0')) s in if leb c b'7' then rest else none

-- The new mode that `set_file_mode` gives the file: of a number, of octal digits, or of a change to
-- the mode that the file has.
pub data Spec : Type 0 where
  number : ℕ → Spec
  text : Text → Spec

pub data NewMode : Type 0 where
  chmod_to : ℕ → NewMode
  value_error bad_clause bad_permission : NewMode

abbrev octal : Option ℕ → NewMode
octal none = value_error
octal (some m) = chmod_to m

abbrev pub symbolic : Mode → NewMode
symbolic (mode m) = chmod_to m
symbolic attribute_error = bad_clause
symbolic key_error = bad_permission

pub set_file_mode : Spec → ℕ → NewMode
unfolding is_digits octal_from apply_mode_spec
set_file_mode (number m) st_mode = chmod_to m
set_file_mode (text []) st_mode = symbolic (apply_mode_spec [] st_mode)
set_file_mode (text (c ∷ s)) st_mode =
    if is_digits (c ∷ s)
    then octal (octal_from 0 (c ∷ s))
    else symbolic (apply_mode_spec (c ∷ s) st_mode)
