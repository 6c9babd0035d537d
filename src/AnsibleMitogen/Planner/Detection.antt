-- ===== src/AnsibleMitogen/Planner/Detection.antt =====
-- mitogen-0.2.9/ansible_mitogen/planner.py: which class is chosen for a module.
use ansible_course.Base.{
  true, false, Text, some, List, [], ◌∷◌, ◌++◌, ◌≡◌, refl, ap, Bool-cases, inl, inr,
}
use ansible_course.Base.Lists.{All}
use ansible_course.AnsibleMitogen.Planner.{
  Ansible, Planner, old_style, planners, detect, first_planner, get_planner, binary, new_style,
  json_args, want_json,
}

-- `k` is in the list, it detects the source, and no class before it does.
abbrev pub First : Ansible → List Planner → Text → Planner → Type 0
First a ks source k =
    (before : List Planner) × (after : List Planner) × (ks ≡ before ++ (k ∷ after))
    × All (λ j. detect a j source ≡ false) before
    × (detect a k source ≡ true)

first_planner-First :
    (a : Ansible) (ks : List Planner) (source : Text)
    → (k : Planner) × First a (ks ++ (old_style ∷ [])) source k
      × (first_planner a (ks ++ (old_style ∷ [])) source ≡ some k)
unfolding first_planner detect
first_planner-First a [] source = (old_style, ([], [], refl, tt, refl), refl)
first_planner-First a (j ∷ ks) source = elim (Bool-cases (detect a j source)) [
  | inl t ↦ (j, ([], ks ++ (old_style ∷ []), refl, tt, t), rw t refl)
  | inr f ↦
      let (k, (before, after, e, all, d), r) = first_planner-First a ks source in
      (k, (j ∷ before, after, ap (λ l. j ∷ l) e, (f, all), d), rw f r)
]

-- A planner is found for every module source, so the error after the loop is never raised: it is the
-- first class of the list whose `detect` accepts the source.
pub get_planner-First :
    (a : Ansible) (source : Text)
    → (k : Planner) × First a planners source k × (get_planner a source ≡ some k)
unfolding get_planner
get_planner-First a source =
    first_planner-First a (binary ∷ new_style ∷ json_args ∷ want_json ∷ []) source
