-- ===== src/AnsibleMitogen/Target/Trees/Tests.antt =====
-- mitogen-0.2.9/ansible_mitogen/target.py: a directory with a file that cannot be removed.
use ansible_course.Base.{
  Bool, true, false, not, String, some, List, [], ◌∷◌, ◌≡◌, refl, string_key, ◌==◌,
}
use ansible_course.Base.Dict.{is_some}
use ansible_course.AnsibleMitogen.Target.Trees.{
  Tree, file, dir, empty, entry, Host, prune_tree, prune_entries,
}
use ansible_course.AnsibleMitogen.Target.Trees.Pruned.{sticks, prune_tree-sticks}

abbrev busy : List String → Bool
busy (a ∷ b ∷ []) = b == "busy"
busy _ = false

abbrev host : Host
host path = record {
  unlinks = not (busy path);
  says_directory = true;
  lists = true;
  removes = true;
}

abbrev tree : Tree
tree = dir (entry "a" file (entry "busy" file empty))

prune_tree-sticks_example :
    is_some (prune_tree host ("tmp" ∷ []) tree) ≡ sticks host ("tmp" ∷ []) tree
prune_tree-sticks_example = prune_tree-sticks host ("tmp" ∷ []) tree

one_left : prune_tree host ("tmp" ∷ []) tree ≡ some (dir (entry "busy" file empty))
unfolding prune_tree prune_entries
one_left = refl
