-- ===== src/AnsibleMitogen/Target/Trees.antt =====
-- mitogen-0.2.9/ansible_mitogen/target.py: `prune_tree`, which removes a directory with all that is in
-- it, and the choice of a temporary directory.
pub mod Pruned
mod Tests
use ansible_course.Base.{
  Bool, true, false, String, Option, none, some, List, [], ◌∷◌, ◌++◌, ◌&&◌, if◌then◌else◌,
}

-- A directory with its entries, or what is none.
mutual
  pub data Tree : Type 0 where
    file : Tree
    dir : Entries → Tree

  pub data Entries : Type 0 where
    empty : Entries
    entry : String → Tree → Entries → Entries

-- How the calls of a path come out: `unlink` of what is no directory; for a directory, whether `unlink`
-- raises `EPERM` or `EISDIR`, and `listdir` and `rmdir`. What `chmod` raises is ignored.
pub record Calls : Type 0 where
  pub unlinks : Bool
  pub says_directory : Bool
  pub lists : Bool
  pub removes : Bool

abbrev pub Host : Type 0
Host = List String → Calls

-- What a directory is after its entries have been pruned: `rmdir` only removes an empty one.
abbrev pub rmdir : Bool → Entries → Option Tree
rmdir removes empty = if removes then none else some (dir empty)
rmdir removes (entry name t rest) = some (dir (entry name t rest))

abbrev pub keep : String → Option Tree → Entries → Entries
keep name none rest = rest
keep name (some t) rest = entry name t rest

-- What `prune_tree(path)` leaves.
mutual
  pub prune_tree : Host → List String → Tree → Option Tree
  prune_tree h path file = if (h path).unlinks then none else some file
  prune_tree h path (dir entries) =
      let left = prune_entries h path entries in
      if (h path).says_directory && (h path).lists
      then rmdir (h path).removes left
      else some (dir entries)

  pub prune_entries : Host → List String → Entries → Entries
  prune_entries h path empty = empty
  prune_entries h path (entry name t rest) =
      keep name (prune_tree h (path ++ (name ∷ [])) t) (prune_entries h path rest)

-- What the calls of `is_good_temp_dir` come to: the directory is there, or is made; a file in it can
-- be created, its mode set, and it can be executed.
pub record Place : Type 0 where
  pub exists : Bool
  pub made : Bool
  pub creates : Bool
  pub sets_mode : Bool
  pub executes : Bool

pub is_good_temp_dir : Place → Bool
is_good_temp_dir p =
    if (if p.exists then true else p.made)
    then (if p.creates then (if p.sets_mode then p.executes else false) else false)
    else false

-- `find_good_temp_dir`, over the candidates and those of `tempfile`; or `IOError`.
pub first_good : (String → Place) → List String → Option String
unfolding is_good_temp_dir
first_good place [] = none
first_good place (path ∷ paths) =
    let later = first_good place paths in if is_good_temp_dir (place path) then some path else later

pub find_good_temp_dir :
    (String → String) → (String → Place) → List String → List String → Option String
unfolding first_good
find_good_temp_dir expand place candidates builtin =
    first_good place (expanded candidates ++ builtin)
  where
    expanded : List String → List String
    expanded [] = []
    expanded (path ∷ paths) = expand path ∷ expanded paths
