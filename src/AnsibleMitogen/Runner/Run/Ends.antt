-- ===== src/AnsibleMitogen/Runner/Run/Ends.antt =====
-- mitogen-0.2.9/ansible_mitogen/runner.py: the callbacks that are run, and the result.
use mathlib.Core.List.{reverse-cons}
use ansible_course.Base.{
  ℕ, Bool, true, false, Text, Option, none, some, List, [], ◌∷◌, ◌++◌, ◌≡◌, ◌⊎◌, refl, sym, ap, ◌∙◌,
  inl, inr, reverse, ◌&&◌, Bool-cases,
}
use ansible_course.AnsibleMitogen.Runner.Process.{
  Stream, real, string_io, Callback, Process, calls, run_callbacks,
}
use ansible_course.AnsibleMitogen.Runner.NewStyle.{Job}
use ansible_course.AnsibleMitogen.Runner.Run.{
  Code, Ending, done, exits, raises, interrupted, run_code, Result, result, raised, get_result,
  ended, got, with_trace, print_exc, run_main,
}

-- The code that a module's end stands for.
abbrev pub rc_of : Ending → Option ℕ
rc_of done = some 2
rc_of (exits []) = none
rc_of (exits (code ∷ _)) = some code
rc_of (raises magic) = some 1
rc_of interrupted = none

abbrev is_string_io : Stream → Bool
is_string_io (real n) = false
is_string_io (string_io t) = true

-- A result with the code and what was written; or none, for want of a code or of a `StringIO`.
abbrev pub Reports : Option ℕ → Process → Result → Type 0
Reports rc p r =
    ((r ≡ raised) × ((rc ≡ none) ⊎ ((is_string_io p.stdout && is_string_io p.stderr) ≡ false)))
    ⊎ ((code : ℕ) × (out : Text) × (err : Text) × (r ≡ result code out err)
        × (rc ≡ some code)
        × (p.stdout ≡ string_io out)
        × (p.stderr ≡ string_io err))

abbrev pub Drained : Process → Process → Type 0
Drained before after =
    (after.deferred ≡ []) × (after.called ≡ before.called ++ reverse before.deferred)

calls_lem : (cs : List Callback) → calls cs ≡ reverse cs
unfolding calls
calls_lem [] = refl
calls_lem (c ∷ cs) = ap (λ l. l ++ (c ∷ [])) (calls_lem cs) ∙ sym (reverse-cons c cs)

got-Reports :
    (p : Process) (rc : ℕ) (out err : Stream)
    → p.stdout ≡ out
    → p.stderr ≡ err
    → Reports (some rc) p (get_result rc out err)
unfolding get_result
got-Reports p rc (string_io out) (string_io err) e f = inr (rc, out, err, refl, refl, e, f)
got-Reports p rc (string_io out) (real n) e f = inl (refl, inr (rw (e, f) refl))
got-Reports p rc (real n) err e f = inl (refl, inr (rw e refl))

-- What a run leaves and gives, from how the module ended.
abbrev pub Ends : Process × Ending → Process × Result → Type 0
Ends (before, ending) (after, r) = Drained before after × Reports (rc_of ending) after r

drained : (p : Process) → Drained p (run_callbacks p)
unfolding run_callbacks
drained p = (refl, ap (λ l. p.called ++ l) (calls_lem p.deferred))

ended-Ends : (trace : Text) (left : Process × Ending) → Ends left (got (ended trace left))
unfolding run_callbacks
ended-Ends trace (p, done) =
    (drained p, got-Reports (run_callbacks p) 2 p.stdout p.stderr refl refl)
ended-Ends trace (p, exits []) = (drained p, inl (refl, inl refl))
ended-Ends trace (p, exits (code ∷ rest)) =
    (drained p, got-Reports (run_callbacks p) code p.stdout p.stderr refl refl)
ended-Ends trace (p, raises magic) = (
  drained p,
  got-Reports (run_callbacks (with_trace trace p)) 1 p.stdout (print_exc trace p.stderr) refl refl,
)
ended-Ends trace (p, interrupted) = (drained p, inl (refl, inl refl))

-- If the source compiles: however the module ends, each deferred callback is called, the last one
-- first, and none is left. There is a result if and only if the streams are still `StringIO` and the
-- module did not end by a `SystemExit` without arguments or by what is no `Exception`: with the code
-- of the `SystemExit`, 1 for an exception, 2 for a module that runs to its end, and with what the
-- streams hold. If the source does not compile, `_run` raises with nothing done.
pub run_main-Ends :
    (j : Job) (code fail_json : Code) (p : Process)
    → ((j.compiles ≡ true) × Ends (run_code code fail_json p) (run_main j code fail_json p))
      ⊎ ((j.compiles ≡ false) × (run_main j code fail_json p ≡ (p, raised)))
unfolding run_main
run_main-Ends j code fail_json p = elim (Bool-cases j.compiles) [
  | inl t ↦ rw t (inl (refl, ended-Ends j.trace (run_code code fail_json p)))
  | inr n ↦ rw n (inr (refl, refl))
]
