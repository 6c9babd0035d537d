-- ===== src/AnsibleMitogen/Target/Files.antt =====
-- mitogen-0.2.9/ansible_mitogen/target.py: `write_path` and `transfer_file`, which put a file in place
-- through a temporary one.
pub mod Ends
pub mod Disk
pub mod Seen
pub mod Filling
pub mod Atomic
mod Tests
use ansible_course.Base.{
  ℕ, Bool, true, false, Text, String, Option, none, some, List, [], ◌∷◌, ◌++◌, ◌==◌, ◌&&◌, ◌||◌,
  not, nat_key, if◌then◌else◌,
}
use ansible_course.AnsibleMitogen.Target.Chmod.{
  Spec, number, text, NewMode, chmod_to, set_file_mode,
}

pub record File : Type 0 where
  pub content : Text
  pub mode : ℕ

abbrev pub Fs : Type 0
Fs = String → Option File

-- The calls that may raise; `lookup` is that of the user and the group, and `receive` is the exchange
-- with the controller.
pub data Call : Type 0 where
  mkstemp chmod lookup chown receive write close rename unlink utime : Call

-- Which of them raise.
abbrev pub Faults : Type 0
Faults = Call → Bool

-- What is done to the file system, in order.
pub data Effect : Type 0 where
  create : Effect
  set_mode : ℕ → Effect
  append : Text → Effect
  replace remove touch : Effect

abbrev pub Try : Type 0
Try = List Effect × Bool

-- One call after another: after a raise, nothing.
abbrev pub then_try : Try → Try → Try
then_try (es, true) (fs, ok) = (es ++ fs, ok)
then_try (es, false) more = (es, false)

abbrev pub attempt : Bool → List Effect → Try
attempt fails es = if fails then ([], false) else (es, true)

abbrev pub set_to : Bool → NewMode → Try
set_to fails (chmod_to m) = attempt fails (set_mode m ∷ [])
set_to fails _ = ([], false)

-- `set_file_mode` of the temporary file, whose mode is 0o600.
pub mode_try : Faults → Spec → Try
mode_try f spec = set_to (f chmod) (set_file_mode spec 384)

-- `if mode:`
pub truthy_spec : Option Spec → Bool
truthy_spec none = false
truthy_spec (some (number m)) = not (m == 0)
truthy_spec (some (text [])) = false
truthy_spec (some (text (_ ∷ _))) = true

abbrev pub optional_mode : Faults → Option Spec → Try
optional_mode f none = ([], true)
optional_mode f (some spec) = if truthy_spec (some spec) then mode_try f spec else ([], true)

-- `os.fchown` and `os.chown` with a number of arguments: they take three, and with another number they
-- raise `TypeError` and change nothing. Owners are not part of the files here.
pub chown_with : Faults → ℕ → Try
chown_with f given = if given == 3 then attempt (f chown) [] else ([], false)

-- `set_file_owner`: the lookups, and then `os.fchown(fd, (uid, gid))`, or `os.chown(path, (uid, gid))`
-- where there is no `fchown`; either has two arguments, the second a pair.
pub set_file_owner : Faults → Try
unfolding chown_with
set_file_owner f = then_try (attempt (f lookup) []) (chown_with f 2)

abbrev pub optional_owner : Faults → Bool → Try
optional_owner f wanted = if wanted then set_file_owner f else ([], true)

-- What `write_path` is given; `owned` if there is an owner or a group.
pub record Options : Type 0 where
  pub owned : Bool
  pub mode : Option Spec
  pub utimes : Bool
  pub sync : Bool

pub data Outcome : Type 0 where
  returned raised : Outcome

abbrev pub cleaned : Faults → List Effect → List Effect × Outcome
cleaned f es = (if f unlink then es else es ++ (remove ∷ []), raised)

abbrev pub timed : Faults → Bool → List Effect → List Effect × Outcome
timed f false es = (es, returned)
timed f true es = if f utime then (es, raised) else (es ++ (touch ∷ []), returned)

-- From the `finally` on: the file is closed whatever happened, and `os.fsync(fp.fileno())` of the
-- closed file raises `ValueError`.
abbrev pub placed : Faults → Bool → Try → List Effect × Outcome
placed f utimes (es, true) = timed f utimes es
placed f utimes (es, false) = cleaned f es

pub publish : Faults → Bool → Bool → Try → List Effect × Outcome
publish f sync utimes filled = placed f utimes (
    then_try filled (
      then_try (attempt (f close) [])
        (then_try (attempt sync []) (attempt (f rename) (replace ∷ [])))))

abbrev pub created : Faults → (Try → List Effect × Outcome) → Try → List Effect × Outcome
created f rest filled =
    if f mkstemp then ([], raised) else rest (then_try (create ∷ [], true) filled)

-- `write_path`
pub write_path : Faults → Options → Text → List Effect × Outcome
unfolding publish set_file_owner mode_try truthy_spec
write_path f o s = created f (publish f o.sync o.utimes) (
    then_try (optional_mode f o.mode)
      (then_try (optional_owner f o.owned) (attempt (f write) (append s ∷ []))))

-- What the controller's FileService sends: the data that arrived, and whether it is all.
pub record Transfer : Type 0 where
  pub data_ : Text
  pub ok : Bool
  pub mode : Spec

-- `transfer_file`
pub transfer_file : Faults → Bool → Bool → Transfer → List Effect × Outcome
unfolding publish set_file_owner mode_try
transfer_file f sync set_owner t = created f (publish f sync true) (
    then_try (append t.data_ ∷ [], not (f receive) && t.ok)
      (then_try (mode_try f t.mode) (optional_owner f set_owner)))
