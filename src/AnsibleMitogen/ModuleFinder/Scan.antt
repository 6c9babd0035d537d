-- ===== src/AnsibleMitogen/ModuleFinder/Scan.antt =====
-- mitogen-0.2.9/ansible_mitogen/module_finder.py: `scan`, which follows the imports of a module and of
-- the modules that it finds.
pub mod Grows
pub mod Closed
mod Tests
use ansible_course.Base.{
  ℕ, zero, suc, Bool, true, false, String, Option, none, some, List, [], ◌∷◌, ◌++◌, ◌==◌, ◌&&◌,
  ◌<>◌, map, string_key, if◌then◌else◌,
}
use ansible_course.Base.Lists.{contains}
use ansible_course.AnsibleMitogen.ModuleFinder.{
  Kind, py_source, Module, top, within, kind_of, path_of, get_fullname, is_pkg, FindModule, find,
}
use ansible_course.AnsibleMitogen.ModuleFinder.Same.{module_key}

-- A dotted name, as its parts.
abbrev pub Name : Type 0
Name = List String

-- What `scan_code_imports` says of an `import` or a `from … import`, its level apart.
abbrev pub Import : Type 0
Import = Name × List String

-- `scan_fromlist`
pub with_each : Name → List String → List Name
with_each modname [] = []
with_each modname (name ∷ fromlist) = (modname ++ (name ∷ [])) ∷ with_each modname fromlist

abbrev pub names_of : Import → List Name
names_of (modname, []) = modname ∷ []
names_of (modname, name ∷ fromlist) = with_each modname (name ∷ fromlist)

pub scan_fromlist : List Import → List Name
unfolding with_each
scan_fromlist [] = []
scan_fromlist (i ∷ imports) = names_of i ++ scan_fromlist imports

-- `fromname.startswith(PREFIX)`, and then `find` of what is behind it.
pub imported : FindModule → List String → Name → Option Module
imported find_module search_path (a ∷ b ∷ head ∷ tail) =
    if (a == "ansible") && (b == "module_utils")
    then find find_module head tail search_path none
    else none
imported find_module search_path _ = none

-- The variables of the loop.
pub record Search : Type 0 where
  pub stack : List Module
  pub seen : List Module

pub visit : Module → Search → Search
visit m s = record { stack = s.stack ++ (m ∷ []); seen = m ∷ s.seen }

pub add_new : Module → Search → Search
unfolding visit
add_new m s = if contains s.seen m then s else visit m s

-- A parent, under its full name and with no parent of its own.
abbrev pub alone : Module → Module
alone m = top (get_fullname m) (path_of m) (kind_of m)

pub add_parents : Module → Search → Search
unfolding add_new
add_parents (top name path kind) s = s
add_parents (within parent name path kind) s = add_parents parent (add_new (alone parent) s)

pub offer : Option Module → Search → Search
unfolding visit add_parents
offer none s = s
offer (some m) s = if contains s.seen m then s else add_parents m (visit m s)

pub offer_all : List (Option Module) → Search → Search
unfolding offer
offer_all [] s = s
offer_all (o ∷ os) s = offer_all os (offer o s)

-- What is imported by each of the names in a module's code.
pub imports_of : FindModule → List String → (Module → List Import) → Module → List (Option Module)
unfolding scan_fromlist imported
imports_of find_module search_path code m =
    map (imported find_module search_path) (scan_fromlist (code m))

module _ (imports : Module → List (Option Module)) where
  -- The loop `while stack:`, in rounds; `none` if they do not suffice.
  pub loop : ℕ → List Module → List Module → Option (List Module)
  unfolding offer_all
  loop fuel [] seen = some seen
  loop zero (m ∷ stack) seen = none
  loop (suc fuel) (m ∷ stack) seen =
      let s = offer_all (imports m) (record { stack = stack; seen = seen }) in
      loop fuel s.stack s.seen

-- What is returned for each module that was seen, before it is sorted: its full name, its path, and
-- whether it is a package.
abbrev pub Resolved : Type 0
Resolved = String × String × Bool

pub resolved : List Module → List Resolved
resolved [] = []
resolved (m ∷ seen) =
    ("ansible.module_utils." <> get_fullname m, path_of m, is_pkg m) ∷ resolved seen

pub scan :
    (List Resolved → List Resolved)
    → FindModule
    → (Module → List Import)
    → ℕ
    → String
    → String
    → List String
    → Option (List Resolved)
unfolding loop imports_of resolved
scan sorted find_module code fuel module_name module_path search_path =
    elim (loop (imports_of find_module search_path code) fuel
      (top module_name module_path py_source ∷ []) []) [
        | none ↦ none
        | some seen ↦ some (sorted (resolved seen))
      ]
