-- ===== src/InventoryScript/Laws.antt =====
-- get_inventory.py: what Ansible reads in the printed inventory.
use ansible_course.Base.{
  false, Option, none, some, String, ◌≡◌, refl, ◌==◌, string_key, Bool-cases, inl, inr,
  if◌then◌else◌,
}
use ansible_course.InventoryScript.{
  Json, object, Fields, end, field, Args, example_inventory, empty_inventory, truthy, init,
}

-- The entry of an object under a key, and along a path of keys.
abbrev pub entry : Fields → String → Option Json
entry end k = none
entry (field j v rest) k = if j == k then some v else entry rest k

abbrev pub member : String → Json → Option Json
member k (object fields) = entry fields k
member k _ = none

-- Ansible's test for an inventory that carries its host variables: `_meta` holds `hostvars`.
abbrev pub hostvars : Json → Option Json
hostvars j = elim (member "_meta" j) [ none ↦ none | some m ↦ member "hostvars" m ]

-- Whatever the command line, the printed inventory carries host variables under `_meta`, so that
-- Ansible never runs the script once for each host; and without `--list` they are empty and there
-- is no group, with or without `--host`.
pub init-hostvars :
    (args : Args)
    → ((vars : Fields) × (hostvars (init args) ≡ some (object vars)))
      × (args.list ≡ false
          → (hostvars (init args) ≡ some (object end)) × (member "group" (init args) ≡ none))
unfolding init example_inventory empty_inventory
init-hostvars args = elim (Bool-cases args.list) [
  | inl l ↦ rw l ((_, refl), λ e. cc)
  | inr l ↦ elim (Bool-cases (truthy args.host)) [
    | inl h ↦ rw (l, h) ((_, refl), λ _. (refl, refl))
    | inr h ↦ rw (l, h) ((_, refl), λ _. (refl, refl))
  ]
]
