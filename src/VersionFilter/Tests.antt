-- ===== src/VersionFilter/Tests.antt =====
-- filter_plugins/my_filters.py: the filters on concrete texts.
use native.Mathlib.Nat.{le_refl}
use native.Mathlib.Bridge.{le_prop}
use ansible_course.Base.Sorting.{sort_by, sort_by-perm, sort_by-ordered}
use ansible_course.Base.{ℕ, ◌≤◌, Bool, Text, ◌≡◌, ◌⊎◌, refl, nat_key, leb, ◌&&◌}
use ansible_course.Base.Lists.{codes, length, split}
use ansible_course.VersionFilter.{returned, attribute_error, is_tag, latest_version}
use ansible_course.VersionFilter.Latest.{IsNatsort, Greatest, Least, latest_version_cases}

abbrev ascii_digit : ℕ → Bool
ascii_digit c = leb b'0' c && leb c b'9'

abbrev tags : Text
tags = codes "v9.9\nv10.1\nv10.2"

-- A sort that suits `tags`: the identity.
tag_returned : latest_version (λ ts. ts) ascii_digit tags ≡ returned (codes "v10.2")
unfolding latest_version is_tag split
tag_returned = refl

-- Two digits after the dot: not five characters.
long_tag_missed :
    latest_version (λ ts. ts) ascii_digit (codes "v9.9\nv10.10") ≡ returned (codes "v9.9")
unfolding latest_version is_tag split
long_tag_missed = refl

five_letters : latest_version (λ ts. ts) ascii_digit (codes "v1.10") ≡ attribute_error
unfolding latest_version is_tag split
five_letters = refl

-- Lines ordered by their length.
by_length-IsNatsort : IsNatsort (sort_by length) (λ t u. length t ≤ length u)
by_length-IsNatsort = record {
  same_lines = sort_by-perm length;
  ordered = sort_by-ordered length;
  le_refl = λ t. le_refl (length t);
  le_prop = λ t u. le_prop;
}

latest_version_cases_example :
    Greatest
      (sort_by length)
      ascii_digit
      (λ t u. length t ≤ length u)
      by_length-IsNatsort
      (split 10 tags)
      (latest_version (sort_by length) ascii_digit tags)
    ⊎ Least
        (sort_by length)
        ascii_digit
        (λ t u. length t ≤ length u)
        by_length-IsNatsort
        (split 10 tags)
        (latest_version (sort_by length) ascii_digit tags)
latest_version_cases_example =
    latest_version_cases (sort_by length) ascii_digit (λ t u. length t ≤ length u)
      by_length-IsNatsort tags
