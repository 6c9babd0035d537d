-- ===== src/AnsibleMitogen/Contexts/Deps/Tests.antt =====
-- mitogen-0.2.9/ansible_mitogen/services.py: two modules of one name.
use ansible_course.Base.{Text, false, List, [], ◌∷◌, ◌++◌, ◌≡◌, refl, text_key, nat_key}
use ansible_course.Base.Lists.{codes}
use ansible_course.Base.Dict.{get, set_item}
use ansible_course.AnsibleMitogen.Contexts.Lookup.{
  Resolved, get_builtin_names, get_custom_tups, begins_with,
}
use ansible_course.AnsibleMitogen.Contexts.Deps.{Request, fresh, scan, scan_all, scan_key}
use ansible_course.AnsibleMitogen.Contexts.Deps.Firsts.{
  each_fresh, firsts, Scanned, scan_all-firsts,
}

-- Each module is found to import a file beside it.
abbrev beside : Text → Text → List Text → List Resolved
beside name path search_path =
    record { fullname = codes "m"; path = path ++ codes "/m.py"; is_pkg = false } ∷ []

abbrev absolute : Text → Text
absolute path = path

abbrev request : Text → Request
request path = record {
  module_name = codes "ping";
  module_path = path;
  search_path = [];
  builtin_path = codes "/lib";
}

scan_all-firsts_example :
    Scanned beside absolute
      (firsts [] (request (codes "/a") ∷ request (codes "/b") ∷ []))
      (scan_all beside absolute (request (codes "/a") ∷ request (codes "/b") ∷ []) [])
scan_all-firsts_example =
    scan_all-firsts beside absolute (request (codes "/a") ∷ request (codes "/b") ∷ [])

-- The second one has the dependencies of the first.
mixed_up :
    scan_all beside absolute (request (codes "/a") ∷ request (codes "/b") ∷ []) []
    ≡ each_fresh (fresh beside absolute) (request (codes "/a") ∷ request (codes "/a") ∷ [])
unfolding scan_all scan get set_item fresh get_builtin_names get_custom_tups begins_with
mixed_up = refl
