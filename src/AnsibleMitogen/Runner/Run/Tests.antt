-- ===== src/AnsibleMitogen/Runner/Run/Tests.antt =====
-- mitogen-0.2.9/ansible_mitogen/runner.py: a module that installs a hook, sets a variable and exits.
use ansible_course.Base.{true, false, none, some, [], ◌∷◌, ◌≡◌, ◌⊎◌, refl}
use ansible_course.Base.Lists.{codes}
use ansible_course.AnsibleMitogen.Runner.EnvFile.{Watcher}
use ansible_course.AnsibleMitogen.Runner.Process.{
  Process, real, rmtree, original, foreign, module_utils, atexit__register, module_utils_importer,
  new_style_stdio,
}
use ansible_course.AnsibleMitogen.Runner.NewStyle.{
  Job, imported, Saved, Setup, failed, ready, setup, setup_cwd, check_files, import_custom,
  import_builtin,
}
use ansible_course.AnsibleMitogen.Runner.Run.{exits, raised, run_code, run_main, run, Code}
use ansible_course.AnsibleMitogen.Runner.Run.Restored.{Ran, run-Restored}
use ansible_course.AnsibleMitogen.Runner.Run.Ends.{Ends, run_main-Ends}

abbrev watcher : Watcher
watcher = record { st = none; keys = [] }

abbrev before : Process
before = record {
  pam_env = watcher;
  etc_env = watcher;
  environ = (codes "HOME", codes "/root") ∷ [];
  cwd = codes "/";
  argv = codes "python" ∷ [];
  stdin = real 0;
  stdout = real 1;
  stderr = real 2;
  ansible_args = codes "{}";
  get_module_path = foreign 0;
  excepthook = 0;
  register = original;
  deferred = [];
  registered = [];
  called = [];
  mkstemp = original;
  watched = record { fds = λ fd. none; fd_dev_inode = [] };
  meta_path = [];
  temp_dir = none;
  pruned = [];
}

abbrev job : Job
job = record {
  cwd = none;
  chdir_fails = false;
  to_text = λ o. o;
  shlex_split_b = λ line. line ∷ [];
  pam_env = none;
  etc_env = none;
  extra_env = (codes "LANG", some (codes "C")) ∷ [];
  env = [];
  fetches = true;
  compiles = true;
  ansible_tmpdir = none;
  mkdtemp = some (codes "/tmp/m");
  encoded_args = codes "{}";
  custom = codes "helper" ∷ [];
  builtin = [];
  import_module = λ name. imported;
  good_temp_dir = codes "/tmp";
  return_fails = false;
  trace = [];
}

abbrev code : Code
code p = (atexit__register (rmtree (codes "/tmp/m")) (record p { excepthook = 9 }), exits (0 ∷ []))

abbrev fail_json : Code
fail_json p = (p, exits (1 ∷ []))

abbrev process_of : Setup → Process
process_of (failed p) = p
process_of (ready p s) = p

abbrev saved_of : Setup → Saved
saved_of (ready p s) = s
saved_of (failed p) = record {
  environ = [];
  argv = [];
  stdin = real 0;
  stdout = real 0;
  stderr = real 0;
  get_path = original;
  real_mkstemp = original;
  excepthook = 0;
}

is_ready : setup job before ≡ ready (process_of (setup job before)) (saved_of (setup job before))
unfolding setup setup_cwd import_custom import_builtin check_files module_utils_importer
    new_style_stdio
is_ready = refl

run-Restored_example :
    ((process_of (setup job before)).meta_path ≡ module_utils (codes "helper" ∷ []) ∷ [])
    × Ran
        (check_files job before).environ
        before
        (run_main job code fail_json (process_of (setup job before)))
        (run job code fail_json before)
run-Restored_example =
    run-Restored job code fail_json before (process_of (setup job before))
      (saved_of (setup job before)) is_ready

run_main-Ends_example :
    ((job.compiles ≡ true)
      × Ends (run_code code fail_json before) (run_main job code fail_json before))
    ⊎ ((job.compiles ≡ false) × (run_main job code fail_json before ≡ (before, raised)))
run_main-Ends_example = run_main-Ends job code fail_json before
