-- ===== src/AnsibleMitogen/Hashbang.antt =====
-- mitogen-0.2.9/ansible_mitogen/parsing.py: the interpreter line of a script, as Linux reads it.
pub mod Line
use ansible_course.Base.{
  ℕ, zero, suc, ◌+◌, Bool, true, false, Text, Option, none, some, List, [], ◌∷◌, ◌++◌, ◌&&◌, ◌||◌,
  ◌==◌, not, nat_key, leb, reverse, if◌then◌else◌,
}
use ansible_course.Base.Lists.{length}

-- The bytes that `bytes.strip` and `bytes.split` take for white space.
abbrev pub is_space : ℕ → Bool
is_space c = c == 32 || (leb 9 c && leb c 13)

-- `source[0:nl]`: the bytes before the first newline of the first `n`, or those `n`.
pub first_line : ℕ → Text → Text
first_line zero s = []
first_line (suc n) [] = []
first_line (suc n) (c ∷ s) = let rest = first_line n s in if c == 10 then [] else c ∷ rest

-- `.strip()`
pub strip_left : Text → Text
strip_left [] = []
strip_left (c ∷ s) = let rest = strip_left s in if is_space c then rest else c ∷ s

pub strip : Text → Text
unfolding strip_left
strip s = reverse (strip_left (reverse (strip_left s)))

-- `.split(None, 1)` of a stripped text: the first word, and the rest behind the white space.
pub word : Text → Text
word [] = []
word (c ∷ s) = let rest = word s in if is_space c then [] else c ∷ rest

pub after_word : Text → Text
after_word [] = []
after_word (c ∷ s) = let rest = after_word s in if is_space c then strip_left s else rest

-- `IndexError`: `bits` is empty for a blank line.
pub data Parsed : Type 0 where
  no_hashbang : Parsed
  interpreter : Text → Option Text → Parsed
  index_error : Parsed

-- `bits`, from the stripped line
pub with_rest : Text → Text → Parsed
with_rest path [] = interpreter path none
with_rest path (d ∷ rest) = interpreter path (some (d ∷ rest))

pub bits_of : Text → Parsed
unfolding word after_word with_rest
bits_of [] = index_error
bits_of (c ∷ s) = with_rest (word (c ∷ s)) (after_word (c ∷ s))

-- `parse_script_interpreter`
pub parse_script_interpreter : Text → Parsed
unfolding first_line strip bits_of
parse_script_interpreter source = bits_of (strip (first_line 128 source))

-- `parse_hashbang`
pub parse_hashbang : Text → Parsed
unfolding parse_script_interpreter
parse_hashbang (a ∷ b ∷ rest) =
    if a == b'#' && b == b'!' then parse_script_interpreter rest else no_hashbang
parse_hashbang _ = no_hashbang
