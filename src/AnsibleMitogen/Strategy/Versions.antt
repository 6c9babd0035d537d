-- ===== src/AnsibleMitogen/Strategy/Versions.antt =====
-- mitogen-0.2.9/ansible_mitogen/strategy.py: the order of the releases that are supported.
use ansible_course.Base.{
  ℕ, ◌+◌, ◌≤◌, ◌<◌, ◌||◌, ◌&&◌, Text, List, [], ◌∷◌, ◌==◌, ◌≡◌, ◌≢◌, ltb, nat_key, if◌then◌else◌,
}
use ansible_course.Base.Lists.{All}
use ansible_course.AnsibleMitogen.Planner.{text_lt}
use ansible_course.AnsibleMitogen.Strategy.{
  Sort, digits, sort_of, Release, supported, too_old, too_recent, unordered,
}

abbrev pub IsDigit : ℕ → Type 0
IsDigit c = (b'0' ≤ c) × (c ≤ b'9')

-- A number as it is printed.
abbrev pub IsNumeral : Text → Type 0
IsNumeral [] = ⊥
IsNumeral (c ∷ []) = IsDigit c
IsNumeral (c ∷ d ∷ s) = IsDigit c × (b'0' < c) × All IsDigit (d ∷ s)

abbrev pub IsAfter : Text → Type 0
IsAfter [] = Unit
IsAfter (c ∷ s) = sort_of c ≢ digits

-- A run of digits stands before what does not begin with one.
abbrev Apart : List (Sort × Text) → Type 0
Apart [] = Unit
Apart ((t, run) ∷ runs) = t ≢ digits

abbrev one : ℕ → Text
one c = c ∷ []

-- The releases, by their first two numbers.
abbrev pub release_of : ℕ → ℕ → Release
release_of a b =
    if ltb a 2 || (a == 2 && ltb b 3)
    then too_old
    else if a == 2 && ltb b 10
    then supported
    else too_recent

-- The comparison of a text with "2.k", where the release is supported.
abbrev pub Compared : Text → ℕ → ℕ → Release → Type 0
Compared version n k supported = text_lt version (b'2' ∷ b'.' ∷ (b'0' + k) ∷ []) ≡ ltb n k
Compared version n k too_old = Unit
Compared version n k too_recent = Unit
Compared version n k unordered = Unit
