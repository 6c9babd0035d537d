-- ===== src/AnsibleMitogen/ModuleFinder/Named.antt =====
-- mitogen-0.2.9/ansible_mitogen/module_finder.py: the names of what is found.
use mathlib.Core.List.{append_assoc, append-nil}
use ansible_course.Base.{
  String, Option, none, some, List, [], ◌∷◌, ◌++◌, ◌≡◌, ◌⊎◌, refl, sym, ap, ◌∙◌, string_key,
  Bool-cases, inl, inr,
}
use ansible_course.AnsibleMitogen.ModuleFinder.{
  Kind, pkg_directory, py_source, Module, bits, FindModule, same_path, file_of, new_module, child,
  found, find,
}

abbrev pub bits_of : Option Module → List String
bits_of none = []
bits_of (some m) = bits m

-- Nothing is found, or a module whose names are those of the parent and the first of the names asked.
abbrev pub IsNamed : Option Module → List String → Option Module → Type 0
IsNamed parent names o =
    (o ≡ none)
    ⊎ ((m : Module) × (taken : List String) × (rest : List String) × (o ≡ some m)
        × (bits m ≡ bits_of parent ++ taken)
        × (names ≡ taken ++ rest))

parent-IsNamed : (parent : Option Module) (names : List String) → IsNamed parent names parent
parent-IsNamed none names = inl refl
parent-IsNamed (some m) names = inr (m, [], names, refl, sym (append-nil (bits m)), refl)

bits-new :
    (parent : Option Module) (name path : String) (kind : Kind)
    → bits (new_module parent name path kind) ≡ bits_of parent ++ (name ∷ [])
unfolding bits
bits-new none name path kind = refl
bits-new (some m) name path kind = refl

new-IsNamed :
    (parent : Option Module) (name path : String) (kind : Kind) (tail : List String)
    → IsNamed parent (name ∷ tail) (some (new_module parent name path kind))
new-IsNamed parent name path kind tail =
    inr (
      new_module parent name path kind,
      name ∷ [],
      tail,
      refl,
      bits-new parent name path kind,
      refl,
    )

deeper-IsNamed :
    (parent : Option Module) (name path : String) (kind : Kind) (tail : List String)
    (o : Option Module)
    → IsNamed (some (new_module parent name path kind)) tail o
    → IsNamed parent (name ∷ tail) o
deeper-IsNamed parent name path kind tail o (inl e) = inl e
deeper-IsNamed parent name path kind tail o (inr (m, taken, rest, e, b, n)) = inr (
  m,
  name ∷ taken,
  rest,
  e,
  b
      ∙ ap (λ l. l ++ taken) (bits-new parent name path kind)
      ∙ append_assoc (bits_of parent) (name ∷ []) taken,
  ap (λ l. name ∷ l) n,
)

found-IsNamed :
    (parent : Option Module) (name : String) (next : Module → String → Kind → Option Module)
    (tail : List String) (o : Option (String × Kind))
    → ((modpath : String) (kind : Kind)
        → IsNamed parent
            (name ∷ tail)
            (next (new_module parent name (file_of modpath kind) kind) modpath kind))
    → IsNamed parent (name ∷ tail) (found parent name next o)
found-IsNamed parent name next tail none h = parent-IsNamed parent (name ∷ tail)
found-IsNamed parent name next tail (some (modpath, kind)) h =
    elim (Bool-cases (same_path parent modpath)) [
      | inl t ↦ rw t (inl refl)
      | inr n ↦ rw n (h modpath kind)
    ]

child-IsNamed :
    (parent : Option Module) (name path : String) (kind at : Kind) (tail : List String)
    (deeper : Option Module)
    → IsNamed (some (new_module parent name path kind)) tail deeper
    → IsNamed parent (name ∷ tail) (child at (new_module parent name path kind) deeper)
child-IsNamed parent name path kind pkg_directory tail deeper h =
    deeper-IsNamed parent name path kind tail deeper h
child-IsNamed parent name path kind py_source tail deeper h = new-IsNamed parent name path kind tail

-- Whatever the search path holds, `find` finds nothing, or a module whose full name is that of the
-- parent followed by the first of the parts asked for, with no part left out between.
pub find-IsNamed :
    (find_module : FindModule) (head : String) (tail path : List String) (parent : Option Module)
    → IsNamed parent (head ∷ tail) (find find_module head tail path parent)
unfolding find
find-IsNamed find_module head [] path parent =
    found-IsNamed parent head (λ m modpath kind. some m) [] (find_module head path)
      (λ modpath kind. new-IsNamed parent head (file_of modpath kind) kind [])
find-IsNamed find_module head (name ∷ tail) path parent =
    found-IsNamed parent head
      (λ m modpath kind. child kind m (find find_module name tail (modpath ∷ path) (some m)))
      (name ∷ tail) (find_module head path)
      (λ modpath kind. child-IsNamed parent head (file_of modpath kind) kind kind (name ∷ tail) _ (
        find-IsNamed find_module name tail (modpath ∷ path)
          (some (new_module parent head (file_of modpath kind) kind))))
