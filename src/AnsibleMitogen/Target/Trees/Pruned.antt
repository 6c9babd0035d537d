-- ===== src/AnsibleMitogen/Target/Trees/Pruned.antt =====
-- mitogen-0.2.9/ansible_mitogen/target.py: what is left of a tree.
use ansible_course.Base.{
  Bool, true, false, String, Option, none, some, List, [], ◌∷◌, ◌++◌, ◌&&◌, ◌||◌, not, ◌≡◌, refl,
  ap, ◌∙◌, if◌then◌else◌, Bool-cases, inl, inr,
}
use ansible_course.Base.Dict.{is_some}
use ansible_course.AnsibleMitogen.Target.Trees.{
  Tree, file, dir, Entries, empty, entry, Host, rmdir, keep, prune_tree, prune_entries,
}

-- Whether a call fails for something in a tree, or for the tree itself.
mutual
  pub sticks : Host → List String → Tree → Bool
  sticks h path file = not (h path).unlinks
  sticks h path (dir entries) =
      not ((h path).says_directory && ((h path).lists && (h path).removes))
      || any_sticks h path entries

  pub any_sticks : Host → List String → Entries → Bool
  any_sticks h path empty = false
  any_sticks h path (entry name t rest) = sticks h (path ++ (name ∷ [])) t || any_sticks h path rest

abbrev pub any_left : Entries → Bool
any_left empty = false
any_left (entry name t rest) = true

keep-left :
    (name : String) (o : Option Tree) (rest : Entries)
    → any_left (keep name o rest) ≡ (is_some o || any_left rest)
keep-left name none rest = refl
keep-left name (some t) rest = refl

rmdir-left :
    (removes : Bool) (left : Entries)
    → is_some (rmdir removes left) ≡ (not removes || any_left left)
rmdir-left true empty = refl
rmdir-left false empty = refl
rmdir-left true (entry name t rest) = refl
rmdir-left false (entry name t rest) = refl

-- The test that the code makes, and the one of `sticks`.
dir_sticks :
    (says lists removes any : Bool) (left : Entries) (t : Tree)
    → any_left left ≡ any
    → is_some (if says && lists then rmdir removes left else some t)
      ≡ (not (says && (lists && removes)) || any)
dir_sticks false lists removes any left t e = refl
dir_sticks true false removes any left t e = refl
dir_sticks true true removes any left t e = rmdir-left removes left ∙ ap (λ b. not removes || b) e

mutual
  unfolding prune_tree prune_entries sticks any_sticks

  prune_entries-sticks :
      (h : Host) (path : List String) (entries : Entries)
      → any_left (prune_entries h path entries) ≡ any_sticks h path entries
  prune_entries-sticks h path empty = refl
  prune_entries-sticks h path (entry name t rest) =
      keep-left name (prune_tree h (path ++ (name ∷ [])) t) (prune_entries h path rest)
      ∙ rw (tree-sticks h (path ++ (name ∷ [])) t, prune_entries-sticks h path rest) refl

  tree-sticks :
      (h : Host) (path : List String) (t : Tree) → is_some (prune_tree h path t) ≡ sticks h path t
  tree-sticks h path file = elim (Bool-cases (h path).unlinks) [
    | inl t ↦ rw t refl
    | inr n ↦ rw n refl
  ]
  tree-sticks h path (dir entries) =
      dir_sticks (h path).says_directory (h path).lists (h path).removes (any_sticks h path entries)
        (prune_entries h path entries) (dir entries) (prune_entries-sticks h path entries)

-- `prune_tree` leaves something of a tree if and only if a call fails for it or for something in it,
-- however deep.
pub prune_tree-sticks :
    (h : Host) (path : List String) (t : Tree) → is_some (prune_tree h path t) ≡ sticks h path t
prune_tree-sticks h path t = tree-sticks h path t
