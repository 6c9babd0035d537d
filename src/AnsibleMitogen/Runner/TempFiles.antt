-- ===== src/AnsibleMitogen/Runner/TempFiles.antt =====
-- mitogen-0.2.9/ansible_mitogen/runner.py: `TempFileWatcher`, which closes what a module left open.
pub mod Closing
mod Tests
use ansible_course.Base.{
  ℕ, Bool, true, false, Option, none, some, List, [], ◌∷◌, ◌++◌, ◌==◌, ◌&&◌, nat_key, if◌then◌else◌,
}

-- A descriptor's file: `st_dev` and `st_ino`.
abbrev pub Identity : Type 0
Identity = ℕ × ℕ

abbrev pub Descriptors : Type 0
Descriptors = ℕ → Option Identity

pub record Watched : Type 0 where
  pub fds : Descriptors
  pub fd_dev_inode : List (ℕ × Identity)

abbrev pub set_fd : Descriptors → ℕ → Option Identity → Descriptors
set_fd fds fd o k = if fd == k then o else fds k

-- `_wrap_mkstemp`, for what the real `mkstemp` opened.
pub wrap_mkstemp : ℕ → Identity → Watched → Watched
wrap_mkstemp fd file w = record {
  fds = set_fd w.fds fd (some file);
  fd_dev_inode = w.fd_dev_inode ++ ((fd, file) ∷ []);
}

pub same_file : Option Identity → Identity → Bool
same_file none file = false
same_file (some (dev, ino)) (st_dev, st_ino) = (dev == st_dev) && (ino == st_ino)

-- `_revert_one`
pub revert_one : ℕ → Identity → Descriptors → Descriptors
unfolding same_file
revert_one fd file fds = if same_file (fds fd) file then set_fd fds fd none else fds

-- `revert`, over all that was recorded.
pub revert : List (ℕ × Identity) → Descriptors → Descriptors
unfolding revert_one
revert [] fds = fds
revert ((fd, file) ∷ rest) fds = revert rest (revert_one fd file fds)
