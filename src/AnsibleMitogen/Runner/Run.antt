-- ===== src/AnsibleMitogen/Runner/Run.antt =====
-- mitogen-0.2.9/ansible_mitogen/runner.py: `NewStyleRunner._run` and `revert`, and `Runner.run`.
pub mod Restored
pub mod Ends
mod Tests
use ansible_course.Base.{
  ℕ, Bool, true, false, Text, Option, none, some, List, [], ◌∷◌, ◌++◌, if◌then◌else◌,
}
use ansible_course.Base.Lists.{codes}
use ansible_course.AnsibleMitogen.Runner.TempFiles.{Watched, revert as close_leaked}
use ansible_course.AnsibleMitogen.Runner.Process.{
  Stream, real, string_io, Patch, original, wrapped, foreign, Process, run_callbacks,
}
use ansible_course.AnsibleMitogen.Runner.NewStyle.{Job, Saved, Setup, failed, ready, setup}

-- How the module's code ends: it runs to its end, raises `SystemExit` with these arguments, raises an
-- `Exception` (of the class `AnsibleModuleError`, or not), or raises something else.
pub data Ending : Type 0 where
  done : Ending
  exits : List ℕ → Ending
  raises : Bool → Ending
  interrupted : Ending

-- The module's code, and `fail_json`: what they do to the process, and how they end.
abbrev pub Code : Type 0
Code = Process → Process × Ending

-- `_run_code`, with `_handle_magic_exception`: an exception that `fail_json` does not replace goes on.
abbrev magic_end : Process × Ending → Process × Ending
magic_end (p, done) = (p, raises true)
magic_end (p, exits args) = (p, exits args)
magic_end (p, raises magic) = (p, raises magic)
magic_end (p, interrupted) = (p, interrupted)

abbrev handled : Code → Process × Ending → Process × Ending
handled fail_json (p, done) = (p, done)
handled fail_json (p, exits args) = (p, exits args)
handled fail_json (p, raises true) = magic_end (fail_json p)
handled fail_json (p, raises false) = (p, raises false)
handled fail_json (p, interrupted) = (p, interrupted)

pub run_code : Code → Code → Process → Process × Ending
run_code code fail_json p = handled fail_json (code p)

-- `traceback.print_exc()`
pub print_exc : Text → Stream → Stream
print_exc trace (real n) = real n
print_exc trace (string_io s) = string_io (s ++ trace)

-- The result of `run`, or that it raises.
pub data Result : Type 0 where
  result : ℕ → Text → Text → Result
  raised : Result

-- The dictionary: only a `StringIO` has `getvalue`.
pub get_result : ℕ → Stream → Stream → Result
get_result rc (string_io out) (string_io err) = result rc out err
get_result rc (string_io out) (real n) = raised
get_result rc (real n) err = raised

abbrev pub with_trace : Text → Process → Process
with_trace trace p = record p { stderr = print_exc trace p.stderr }

abbrev pub ended : Text → Process × Ending → Process × Option ℕ
ended trace (p, done) = (run_callbacks p, some 2)
ended trace (p, exits []) = (run_callbacks p, none)
ended trace (p, exits (code ∷ _)) = (run_callbacks p, some code)
ended trace (p, raises magic) = (run_callbacks (with_trace trace p), some 1)
ended trace (p, interrupted) = (run_callbacks p, none)

abbrev pub got : Process × Option ℕ → Process × Result
got (p, none) = (p, raised)
got (p, some rc) = (p, get_result rc p.stdout p.stderr)

-- `_run`: `exc.args[0]` of a `SystemExit` without arguments raises `IndexError`.
pub run_main : Job → Code → Code → Process → Process × Result
unfolding run_code get_result print_exc run_callbacks
run_main j code fail_json p =
    if j.compiles then got (ended j.trace (run_code code fail_json p)) else (p, raised)

-- `NewStyleStdio.revert`
pub revert_stdio : Saved → Process → Process
revert_stdio s p = record p {
  get_module_path = s.get_path;
  stdout = s.stdout;
  stderr = s.stderr;
  stdin = s.stdin;
  ansible_args = codes "{}";
}

-- `revert_temp_dir`
abbrev pub pruned_dir : Process → Option Text → Process
pruned_dir p none = p
pruned_dir p (some dir) = record p { temp_dir = none; pruned = p.pruned ++ (dir ∷ []) }

pub revert_temp_dir : Process → Process
revert_temp_dir p = pruned_dir p p.temp_dir

-- `Runner.revert`
pub revert_runner : Job → Saved → Process → Process
unfolding revert_temp_dir
revert_runner j s p =
    revert_temp_dir
      (record p { cwd = if j.return_fails then p.cwd else j.good_temp_dir; environ = s.environ })

-- `NewStyleRunner.revert`: `AtExitWrapper.revert` asserts that nobody else patched `atexit.register`.
-- The importer's `revert` is not called.
abbrev pub reverted : Job → Saved → Process → Patch → Process × Bool
reverted j s p original = (p, false)
reverted j s p (foreign n) = (p, false)
reverted j s p wrapped = (
  revert_runner j s
      (record (revert_stdio s (record p {
        register = original;
        mkstemp = s.real_mkstemp;
        watched = record {
          fds = close_leaked p.watched.fd_dev_inode p.watched.fds;
          fd_dev_inode = p.watched.fd_dev_inode;
        };
        argv = s.argv;
      })) { excepthook = s.excepthook }),
  true,
)

pub revert : Job → Saved → Process → Process × Bool
unfolding revert_stdio revert_runner
revert j s p = reverted j s p p.register

abbrev pub finally_ : Process × Bool → Result → Process × Result
finally_ (p, true) r = (p, r)
finally_ (p, false) r = (p, raised)

abbrev pub run_ready : Job → Saved → Process × Result → Process × Result
run_ready j s (q, r) = finally_ (revert j s q) r

abbrev pub run_from : Job → Code → Code → Setup → Process × Result
run_from j code fail_json (failed p) = (p, raised)
run_from j code fail_json (ready p s) = run_ready j s (run_main j code fail_json p)

-- `run`: `setup` stands before the `try`.
pub run : Job → Code → Code → Process → Process × Result
unfolding setup run_main revert
run j code fail_json p = run_from j code fail_json (setup j p)
