-- ===== src/AnsibleMitogen/ModuleFinder/Tests.antt =====
-- mitogen-0.2.9/ansible_mitogen/module_finder.py: a function of a module in a package.
use ansible_course.Base.{none, some, [], ◌∷◌, ◌==◌, ◌≡◌, refl, string_key, if◌then◌else◌}
use ansible_course.AnsibleMitogen.ModuleFinder.{
  pkg_directory, py_source, Module, top, within, FindModule, find, get_fullname, bits, dotted,
}
use ansible_course.AnsibleMitogen.ModuleFinder.Named.{IsNamed, find-IsNamed}

abbrev disk : FindModule
disk name path =
    if name == "facts"
    then some ("/m/facts", pkg_directory)
    else if name == "timeout"
    then some ("/m/facts/timeout.py", py_source)
    else none

find-IsNamed_example :
    IsNamed none
      ("facts" ∷ "timeout" ∷ "run" ∷ [])
      (find disk "facts" ("timeout" ∷ "run" ∷ []) ("/m" ∷ []) none)
find-IsNamed_example = find-IsNamed disk "facts" ("timeout" ∷ "run" ∷ []) ("/m" ∷ []) none

abbrev facts : Module
facts = top "facts" "/m/facts/__init__.py" pkg_directory

function_left_out :
    find disk "facts" ("timeout" ∷ "run" ∷ []) ("/m" ∷ []) none
    ≡ some (within facts "timeout" "/m/facts/timeout.py" py_source)
unfolding find
function_left_out = refl

full_name : get_fullname (within facts "timeout" "/m/facts/timeout.py" py_source) ≡ "facts.timeout"
unfolding get_fullname bits dotted
full_name = refl
