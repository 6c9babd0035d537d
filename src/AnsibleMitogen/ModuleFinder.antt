-- ===== src/AnsibleMitogen/ModuleFinder.antt =====
-- mitogen-0.2.9/ansible_mitogen/module_finder.py: the search for the module of a dotted name.
pub mod Named
pub mod Same
pub mod Scan
mod Tests
use ansible_course.Base.{
  Bool, true, false, String, Option, none, some, List, [], ◌∷◌, ◌++◌, ◌<>◌, ◌==◌, ◌&&◌, string_key,
  if◌then◌else◌,
}

-- `imp.PKG_DIRECTORY`, and the other kinds.
pub data Kind : Type 0 where
  pkg_directory py_source : Kind

-- `Module`: name, path and kind, with no parent or within one.
pub data Module : Type 0 where
  top : String → String → Kind → Module
  within : Module → String → String → Kind → Module

-- `get_fullname`: the names from the outermost on, and these with dots between.
pub bits : Module → List String
bits (top name path kind) = name ∷ []
bits (within parent name path kind) = bits parent ++ (name ∷ [])

pub dotted : List String → String
dotted [] = ""
dotted (a ∷ []) = a
dotted (a ∷ b ∷ names) = a <> ("." <> dotted (b ∷ names))

pub get_fullname : Module → String
unfolding bits dotted
get_fullname m = dotted (bits m)

abbrev pub kind_of : Module → Kind
kind_of (top name path kind) = kind
kind_of (within parent name path kind) = kind

abbrev pub path_of : Module → String
path_of (top name path kind) = path
path_of (within parent name path kind) = path

-- `is_pkg`
pub is_pkg : Module → Bool
is_pkg m = elim (kind_of m) [ pkg_directory ↦ true | py_source ↦ false ]

-- `imp.find_module`: the path and the kind of the first module on the search path; or `ImportError`.
abbrev pub FindModule : Type 0
FindModule = String → List String → Option (String × Kind)

abbrev pub same_path : Option Module → String → Bool
same_path none modpath = false
same_path (some parent) modpath = modpath == path_of parent

abbrev pub file_of : String → Kind → String
file_of modpath pkg_directory = modpath <> "/__init__.py"
file_of modpath py_source = modpath

abbrev pub new_module : Option Module → String → String → Kind → Module
new_module none name path kind = top name path kind
new_module (some parent) name path kind = within parent name path kind

-- Below a package the search goes on; another module ends it.
abbrev pub child : Kind → Module → Option Module → Option Module
child pkg_directory m deeper = deeper
child py_source m deeper = some m

abbrev pub found :
    Option Module
    → String
    → (Module → String → Kind → Option Module)
    → Option (String × Kind)
    → Option Module
found parent name next none = parent
found parent name next (some (modpath, kind)) =
    let m = new_module parent name (file_of modpath kind) kind in
    if same_path parent modpath then none else next m modpath kind

-- `find`, of a name's first part and its others, with `find_relative`, which searches the package's
-- directory first.
pub find : FindModule → String → List String → List String → Option Module → Option Module
find find_module head [] path parent =
    found parent head (λ m modpath kind. some m) (find_module head path)
find find_module head (name ∷ tail) path parent =
    found parent head
      (λ m modpath kind. child kind m (find find_module name tail (modpath ∷ path) (some m)))
      (find_module head path)
