-- ===== src/AnsibleMitogen/Runner/Process.antt =====
-- mitogen-0.2.9/ansible_mitogen/runner.py: the process that runs modules, and what is patched in it: the
-- environment, `sys.argv`, the standard streams, `atexit.register`, `tempfile.mkstemp`, `sys.meta_path`.
use ansible_course.Base.{ℕ, Text, Option, none, some, List, [], ◌∷◌, ◌++◌, text_key}
use ansible_course.Base.Dict.{Dict, set_item, del_item}
use ansible_course.AnsibleMitogen.Runner.EnvFile.{Environ, Watcher}
use ansible_course.AnsibleMitogen.Runner.TempFiles.{Watched}

-- A stream of the process, or a `StringIO` with its contents.
pub data Stream : Type 0 where
  real : ℕ → Stream
  string_io : Text → Stream

-- `func(*targs, **kwargs)`: a call of `shutil.rmtree`, or another.
pub data Callback : Type 0 where
  rmtree : Text → Callback
  callback : ℕ → Callback

-- What `atexit.register`, `tempfile.mkstemp` and `get_module_path` are: their own, a runner's, or a
-- module's.
pub data Patch : Type 0 where
  original wrapped : Patch
  foreign : ℕ → Patch

-- An entry of `sys.meta_path`: another importer, or a `ModuleUtilsImporter`, with the names it has.
pub data Finder : Type 0 where
  finder : ℕ → Finder
  module_utils : List Text → Finder

pub record Process : Type 0 where
  pub pam_env : Watcher
  pub etc_env : Watcher
  pub environ : Environ
  pub cwd : Text
  pub argv : List Text
  pub stdin : Stream
  pub stdout : Stream
  pub stderr : Stream
  pub ansible_args : Text
  pub get_module_path : Patch
  pub excepthook : ℕ
  pub register : Patch
  pub deferred : List Callback
  pub registered : List Callback
  pub called : List Callback
  pub mkstemp : Patch
  pub watched : Watched
  pub meta_path : List Finder
  pub temp_dir : Option Text
  pub pruned : List Text

-- `AtExitWrapper._atexit__register`
pub atexit__register : Callback → Process → Process
atexit__register (rmtree path) p = record p { deferred = p.deferred ++ (rmtree path ∷ []) }
atexit__register (callback n) p = record p { registered = p.registered ++ (callback n ∷ []) }

-- `run_callbacks`: the last one first. What a callback raises is logged.
unfoldable pub calls : List Callback → List Callback
calls [] = []
calls (c ∷ cs) = calls cs ++ (c ∷ [])

unfoldable pub run_callbacks : Process → Process
unfolding calls
run_callbacks p = record p { deferred = []; called = p.called ++ calls p.deferred }

-- `dict.update`
unfoldable pub update : Dict Text (Option Text) → Dict Text (Option Text) → Dict Text (Option Text)
update d [] = d
update d ((key, value) ∷ rest) = update (set_item d key value) rest

-- `TemporaryEnvironment.__init__`, where `none` is Python's `None`, of a variable or from `to_text`.
abbrev put_variable : Text → Option Text → Environ → Environ
put_variable key none environ = del_item environ key
put_variable key (some value) environ = set_item environ key value

unfoldable pub temporary_environment :
    (Option Text → Option Text) → Dict Text (Option Text) → Environ → Environ
temporary_environment to_text [] environ = environ
temporary_environment to_text ((key, value) ∷ rest) environ =
    temporary_environment to_text rest (put_variable key (to_text value) environ)

-- `NewStyleStdio.__init__`, with the encoded arguments.
unfoldable pub new_style_stdio : Text → Process → Process
new_style_stdio encoded p = record p {
  stdout = string_io [];
  stderr = string_io [];
  ansible_args = encoded;
  stdin = string_io encoded;
  get_module_path = wrapped;
}

-- `ModuleUtilsImporter.__init__`
unfoldable pub module_utils_importer : List Text → Process → Process
module_utils_importer custom p = record p { meta_path = module_utils custom ∷ p.meta_path }
