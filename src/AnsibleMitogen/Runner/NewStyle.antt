-- ===== src/AnsibleMitogen/Runner/NewStyle.antt =====
-- mitogen-0.2.9/ansible_mitogen/runner.py: `NewStyleRunner.setup`, with that of `Runner`: what is done to
-- the process before a module is run in it. `econtext.detach` is left out.
use ansible_course.Base.{
  ℕ, Bool, true, false, Text, Option, none, some, List, [], ◌∷◌, ◌==◌, ◌&&◌, text_key,
  if◌then◌else◌,
}
use ansible_course.Base.Lists.{codes}
use ansible_course.Base.Dict.{Dict}
use ansible_course.AnsibleMitogen.Runner.EnvFile.{Environ, Disk, check}
use ansible_course.AnsibleMitogen.Runner.Process.{
  Stream, Patch, original, wrapped, foreign, Process, update, temporary_environment,
  new_style_stdio, module_utils_importer,
}

-- How an import ends.
pub data Import : Type 0 where
  imported import_error other_error : Import

-- What the runner is given, and what the calls it makes come to: `chdir` to `cwd`, the fetch of the
-- source, `compile`, `mkdtemp` (`none` if it raises), the imports, `chdir` back.
pub record Job : Type 0 where
  pub cwd : Option Text
  pub chdir_fails : Bool
  pub to_text : Option Text → Option Text
  pub shlex_split_b : Text → List Text
  pub pam_env : Disk
  pub etc_env : Disk
  pub extra_env : Dict Text (Option Text)
  pub env : Dict Text (Option Text)
  pub fetches : Bool
  pub compiles : Bool
  pub ansible_tmpdir : Option Text
  pub mkdtemp : Option Text
  pub encoded_args : Text
  pub custom : List Text
  pub builtin : List Text
  pub import_module : Text → Import
  pub good_temp_dir : Text
  pub return_fails : Bool
  pub trace : Text

-- `if self.cwd`
abbrev pub in_cwd : Job → Process → Option Text → Option Process
in_cwd j p (some (c ∷ s)) = if j.chdir_fails then none else some (record p { cwd = c ∷ s })
in_cwd j p (some []) = some p
in_cwd j p none = some p

unfoldable pub setup_cwd : Job → Process → Option Process
setup_cwd j p = in_cwd j p j.cwd

-- `_setup_environ` up to the snapshot.
unfoldable pub check_files : Job → Process → Process
check_files j p =
    let (pam, middle) = check j.shlex_split_b j.pam_env p.pam_env p.environ in
    let (etc, after) = check j.shlex_split_b j.etc_env p.etc_env middle in
    record p { pam_env = pam; etc_env = etc; environ = after }

-- `get_temp_dir`
abbrev pub temp_dir_from : Process → Option Text → Option Text → Option Text → Option Process
temp_dir_from p (some path) held made = some p
temp_dir_from p none (some dir) made = some p
temp_dir_from p none none none = none
temp_dir_from p none none (some dir) = some (record p { temp_dir = some dir })

abbrev pub get_temp_dir : Job → Process → Option Process
get_temp_dir j p = temp_dir_from p j.ansible_tmpdir p.temp_dir j.mkdtemp

-- `_setup_imports`: whether it returns.
unfoldable pub import_custom : (Text → Import) → List Text → Bool
import_custom import_module [] = true
import_custom import_module (name ∷ names) =
    ends (import_module name) (import_custom import_module names)
  where
    ends : Import → Bool → Bool
    ends imported rest = rest
    ends import_error rest = false
    ends other_error rest = false

unfoldable pub import_builtin : (Text → Import) → List Text → Bool
import_builtin import_module [] = true
import_builtin import_module (name ∷ names) =
    ends (import_module name) (import_builtin import_module names)
  where
    ends : Import → Bool → Bool
    ends imported rest = rest
    ends import_error rest = (name == codes "ansible.module_utils.distro._distro") && rest
    ends other_error rest = false

-- What the runner keeps, to put it back.
pub record Saved : Type 0 where
  pub environ : Environ
  pub argv : List Text
  pub stdin : Stream
  pub stdout : Stream
  pub stderr : Stream
  pub get_path : Patch
  pub real_mkstemp : Patch
  pub excepthook : ℕ

-- How `setup` ends: it raises, with the process as it is by then, or the module can be run.
pub data Setup : Type 0 where
  failed : Process → Setup
  ready : Process → Saved → Setup

-- `NewStyleRunner.setup`, from the imports on.
abbrev pub wrap_atexit : Patch → Process → Saved → Setup
wrap_atexit original p s = ready (record p { register = wrapped; deferred = [] }) s
wrap_atexit wrapped p s = failed p
wrap_atexit (foreign n) p s = failed p

abbrev pub setup_imports : Job → Process → Saved → Setup
setup_imports j p s =
    if import_custom j.import_module j.custom && import_builtin j.import_module j.builtin
    then wrap_atexit p.register p s
    else failed p

-- From the standard streams on: `TemporaryArgv([''])`, `TempFileWatcher`, `ModuleUtilsImporter`.
abbrev pub setup_patches : Job → Environ → Process → Option Process → Setup
setup_patches j before p none = failed p
setup_patches j before p (some q) =
    setup_imports j
      (module_utils_importer j.custom (record (new_style_stdio j.encoded_args q) {
        argv = [] ∷ [];
        mkstemp = wrapped;
        watched = record { fds = q.watched.fds; fd_dev_inode = [] };
      }))
      (record {
        environ = before;
        argv = q.argv;
        stdin = q.stdin;
        stdout = q.stdout;
        stderr = q.stderr;
        get_path = q.get_module_path;
        real_mkstemp = q.mkstemp;
        excepthook = q.excepthook;
      })

abbrev pub setup_environ : Job → Process → Setup
setup_environ j p =
    let q = record p {
      environ = temporary_environment j.to_text (update j.extra_env j.env) p.environ;
    } in
    if j.fetches then setup_patches j p.environ q (get_temp_dir j q) else failed q

abbrev pub setup_in : Job → Process → Option Process → Setup
setup_in j p none = failed p
setup_in j p (some q) = setup_environ j (check_files j q)

-- `__init__` has no temporary directory; `setup`.
unfoldable pub setup : Job → Process → Setup
unfolding setup_cwd
setup j p = let q = record p { temp_dir = none } in setup_in j q (setup_cwd j q)
