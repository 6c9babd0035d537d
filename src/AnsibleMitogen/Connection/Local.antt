-- ===== src/AnsibleMitogen/Connection/Local.antt =====
-- mitogen-0.2.9/ansible_mitogen/plugins/connection/mitogen_local.py and mitogen_kubectl.py: what the
-- connections of these two kinds give to the programs that they run.
pub mod Passed
mod Tests
use ansible_course.Base.{
  Bool, true, false, Text, Option, none, some, List, [], ◌∷◌, ◌++◌, ◌==◌, text_key, if◌then◌else◌,
}
use ansible_course.Base.Dict.{Dict, get, set_item}

module _ {V : Type 0} where
  -- `for key in …: out[key] = …`, for the keys of a dictionary for which there is a value to set.
  unfoldable pub fill : (Text → Option V) → Dict Text Text → Dict Text V → Dict Text V
  fill value [] out = out
  fill value ((key, _) ∷ keys) out =
      fill value keys (elim (value key) [ none ↦ out | some v ↦ set_item out key v ])

-- The values of the keys in `new_keys - old_keys`, in `old_keys - new_keys`, and of those in both, where
-- they differ.
abbrev pub added : Option Text → Option Text → Option (Option Text)
added none (some value) = some (some value)
added none none = none
added (some _) _ = none

abbrev pub deleted : Option Text → Option Text → Option (Option Text)
deleted (some _) none = some none
deleted (some _) (some _) = none
deleted none _ = none

abbrev pub changed : Option Text → Option Text → Option (Option Text)
changed (some was) (some value) = if was == value then none else some (some value)
changed (some _) none = none
changed none _ = none

-- `dict_diff`, where the inner `none` is Python's `None`.
unfoldable pub dict_diff : Dict Text Text → Dict Text Text → Dict Text (Option Text)
unfolding fill
dict_diff old new =
    fill (λ key. changed (get old key) (get new key)) old
      (fill (λ key. deleted (get old key) (get new key)) old
        (fill (λ key. added (get old key) (get new key)) new []))

-- `mitogen_kubectl.Connection.get_extra_args`: an option for each variable that is set.
pub get_extra_args : (Text → Option Text) → Dict Text Text → List Text
get_extra_args get_task_var [] = []
get_extra_args get_task_var ((key, option) ∷ options) =
    let rest = get_extra_args get_task_var options in
    elim (get_task_var key) [ none ↦ rest | some value ↦ option ∷ value ∷ rest ]
