-- ===== src/VersionFilter.antt =====
-- filter_plugins/my_filters.py: the Jinja filters `a_filter` and `latest_version`.
pub mod Latest
mod Tests
use ansible_course.Base.{
  ℕ, Bool, true, false, Text, List, [], ◌∷◌, ◌++◌, ◌&&◌, ◌==◌, not, reverse, nat_key, if◌then◌else◌,
}
use ansible_course.Base.Lists.{codes, length, split}

-- `a_filter`
pub a_filter : Text → Text
a_filter a_variable = a_variable ++ codes " CRAZY NEW FILTER"

pub data Outcome : Type 0 where
  returned : Text → Outcome
  -- `AttributeError`: `m` is `None`, which has no `group`
  attribute_error : Outcome

-- `natsorted` is the `natsort` package's; `is_digit` is what `\d` accepts.
module _ (natsorted : List Text → List Text) (is_digit : ℕ → Bool) where
  -- `re.search(r'^(v\d{2}.\d{1})', version)` finds a match: `.` is any character but a newline.
  pub is_tag : Text → Bool
  is_tag (v ∷ a ∷ b ∷ dot ∷ c ∷ _) =
      v == b'v' && (is_digit a && (is_digit b && (not (dot == 10) && is_digit c)))
  is_tag _ = false

  -- The loop over `res`; a match is never empty, so its truth is not tested again.
  pub scan : Text → List Text → Outcome
  scan list_of_version [] = returned list_of_version
  scan list_of_version (val ∷ rest) =
      let more = scan val rest in
      if length val == 5 then if is_tag val then returned val else attribute_error else more

  pub latest_version : Text → Outcome
  unfolding scan
  latest_version list_of_version =
      scan list_of_version (reverse (natsorted (split 10 list_of_version)))
