-- ===== src/AnsibleMitogen/Runner/Run/Restored.antt =====
-- mitogen-0.2.9/ansible_mitogen/runner.py: what is as it was after a module has run.
use mathlib.Core.Path.{subst}
use ansible_course.Base.{
  Text, Option, none, some, [], ◌∷◌, ◌≡◌, ◌≢◌, ◌⊎◌, refl, sym, ◌&&◌, Bool-cases, inl, inr,
}
use ansible_course.Base.Lists.{codes}
use ansible_course.AnsibleMitogen.Runner.EnvFile.{Environ}
use ansible_course.AnsibleMitogen.Runner.TempFiles.{revert as close_leaked}
use ansible_course.AnsibleMitogen.Runner.Process.{
  Patch, original, wrapped, foreign, module_utils, Process, module_utils_importer, new_style_stdio,
}
use ansible_course.AnsibleMitogen.Runner.NewStyle.{
  Job, Saved, Setup, failed, ready, setup, check_files, in_cwd, setup_cwd, temp_dir_from,
  wrap_atexit, setup_patches, setup_environ, setup_in, import_custom, import_builtin,
}
use ansible_course.AnsibleMitogen.Runner.Run.{
  Code, Result, raised, run_main, revert, revert_runner, revert_stdio, revert_temp_dir, reverted,
  finally_, pruned_dir, run_ready, run,
}

-- What `setup` keeps of a process, if it returns, and that it has the importer in the way.
abbrev pub Saves : Job → Environ → Process → Setup → Type 0
Saves j environ p (failed q) = Unit
Saves j environ p (ready q s) =
    (s ≡ record {
      environ = environ;
      argv = p.argv;
      stdin = p.stdin;
      stdout = p.stdout;
      stderr = p.stderr;
      get_path = p.get_module_path;
      real_mkstemp = p.mkstemp;
      excepthook = p.excepthook;
    })
    × (q.meta_path ≡ module_utils j.custom ∷ p.meta_path)
    × (p.register ≡ original)

wrap-Saves :
    (j : Job) (environ : Environ) (p q : Process) (s : Saved) (r : Patch)
    → q.meta_path ≡ module_utils j.custom ∷ p.meta_path
    → p.register ≡ r
    → s ≡ record {
      environ = environ;
      argv = p.argv;
      stdin = p.stdin;
      stdout = p.stdout;
      stderr = p.stderr;
      get_path = p.get_module_path;
      real_mkstemp = p.mkstemp;
      excepthook = p.excepthook;
    }
    → Saves j environ p (wrap_atexit r q s)
wrap-Saves j environ p q s original m e h = (h, m, e)
wrap-Saves j environ p q s wrapped m e h = tt
wrap-Saves j environ p q s (foreign n) m e h = tt

patches-Saves :
    (j : Job) (environ : Environ) (p q : Process)
    → Saves j environ p (setup_patches j environ q (some p))
unfolding module_utils_importer new_style_stdio
patches-Saves j environ p q =
    elim (Bool-cases
      (import_custom j.import_module j.custom && import_builtin j.import_module j.builtin)) [
        | inl t ↦ rw t (wrap-Saves j environ p _ _ p.register refl refl refl)
        | inr n ↦ rw n tt
      ]

temp-Saves :
    (j : Job) (environ : Environ) (p q : Process) (given held made : Option Text)
    → Saves j environ p (setup_patches j environ q (temp_dir_from p given held made))
temp-Saves j environ p q (some dir) held made = patches-Saves j environ p q
temp-Saves j environ p q none (some dir) made = patches-Saves j environ p q
temp-Saves j environ p q none none none = tt
temp-Saves j environ p q none none (some dir) =
    patches-Saves j environ (record p { temp_dir = some dir }) q

setup-Saves : (j : Job) (p : Process) → Saves j (check_files j p).environ p (setup j p)
unfolding setup setup_cwd check_files
setup-Saves j p = go j.cwd
  where
    at_environ : (q : Process) → Saves j q.environ q (setup_environ j q)
    at_environ q = elim (Bool-cases j.fetches) [
      | inl t ↦ rw t (temp-Saves j q.environ _ _ j.ansible_tmpdir q.temp_dir j.mkdtemp)
      | inr n ↦ rw n tt
    ]

    go :
        (cwd : Option Text)
        → Saves j (check_files j p).environ p (
            setup_in j (record p { temp_dir = none }) (in_cwd j (record p { temp_dir = none }) cwd))
    go none = at_environ (check_files j (record p { temp_dir = none }))
    go (some []) = at_environ (check_files j (record p { temp_dir = none }))
    go (some (c ∷ s)) = elim (Bool-cases j.chdir_fails) [
      | inl t ↦ rw t tt
      | inr n ↦ rw n (at_environ (check_files j (record p { temp_dir = none; cwd = c ∷ s })))
    ]

-- The process after a run as it was before it (`p`), with what the module left (`q`): the environment
-- as `setup` found it, and the modules' importer still where the module left it.
abbrev pub Restored : Environ → Process → Process → Process → Type 0
Restored environ p q after =
    (after.environ ≡ environ)
    × (after.argv ≡ p.argv)
    × (after.stdin ≡ p.stdin)
    × (after.stdout ≡ p.stdout)
    × (after.stderr ≡ p.stderr)
    × (after.get_module_path ≡ p.get_module_path)
    × (after.ansible_args ≡ codes "{}")
    × (after.excepthook ≡ p.excepthook)
    × (after.register ≡ p.register)
    × (after.mkstemp ≡ p.mkstemp)
    × (after.watched.fds ≡ close_leaked q.watched.fd_dev_inode q.watched.fds)
    × (after.meta_path ≡ q.meta_path)
    × (after.temp_dir ≡ none)

abbrev pub Ran : Environ → Process → Process × Result → Process × Result → Type 0
Ran environ p (q, r) (after, outcome) =
    ((q.register ≡ wrapped) × Restored environ p q after × (outcome ≡ r))
    ⊎ ((q.register ≢ wrapped) × (after ≡ q) × (outcome ≡ raised))

pruned-Restored :
    (environ : Environ) (p q after : Process) (dir : Option Text)
    → Restored environ p q (record after { temp_dir = none })
    → after.temp_dir ≡ dir
    → Restored environ p q (pruned_dir after dir)
pruned-Restored environ p q after none (a, b, c, d, e, f, g, h, i, k, l, m, n) t =
    (a, b, c, d, e, f, g, h, i, k, l, m, t)
pruned-Restored environ p q after (some dir) h t = h

saved : Environ → Process → Saved
saved environ p = record {
  environ = environ;
  argv = p.argv;
  stdin = p.stdin;
  stdout = p.stdout;
  stderr = p.stderr;
  get_path = p.get_module_path;
  real_mkstemp = p.mkstemp;
  excepthook = p.excepthook;
}

at_register :
    (j : Job) (environ : Environ) (p q : Process) (r : Result) (register : Patch)
    → q.register ≡ register
    → p.register ≡ original
    → Ran environ p (q, r) (finally_ (reverted j (saved environ p) q register) r)
unfolding saved revert_runner revert_stdio revert_temp_dir
at_register j environ p q r original e o = inr ((λ w. cc), refl, refl)
at_register j environ p q r (foreign n) e o = inr ((λ w. cc), refl, refl)
at_register j environ p q r wrapped e o = inl (
  e,
  pruned-Restored environ p q _ q.temp_dir
      (refl, refl, refl, refl, refl, refl, refl, refl, sym o, refl, refl, refl, refl) refl,
  refl,
)

ready-Ran :
    (j : Job) (environ : Environ) (p p1 : Process) (s : Saved) (left : Process × Result)
    → Saves j environ p (ready p1 s)
    → Ran environ p left (run_ready j s left)
unfolding saved revert
ready-Ran j environ p p1 s (q, r) (e, m, o) = rw e (at_register j environ p q r q.register refl o)

-- After `setup` has returned, with the importer on `sys.meta_path`: if the module leaves the patched
-- `atexit.register` there, then whatever it does, the environment, the arguments, the standard
-- streams and the patched functions are as before the run, what `mkstemp` opened is closed, and
-- the result is the module's. But `sys.meta_path` is as the module left it: the importer stays. If
-- the module leaves another `atexit.register`, nothing at all is put back and `run` raises.
pub run-Restored :
    (j : Job) (code fail_json : Code) (p p1 : Process) (s : Saved)
    → setup j p ≡ ready p1 s
    → (p1.meta_path ≡ module_utils j.custom ∷ p.meta_path)
      × Ran (check_files j p).environ p (run_main j code fail_json p1) (run j code fail_json p)
unfolding run
run-Restored j code fail_json p p1 s e =
    let saves = subst (λ r. Saves j (check_files j p).environ p r) e (setup-Saves j p) in
    (saves.1, rw e (ready-Ran j (check_files j p).environ p p1 s _ saves))
