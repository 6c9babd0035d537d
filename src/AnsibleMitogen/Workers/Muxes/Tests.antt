-- ===== src/AnsibleMitogen/Workers/Muxes/Tests.antt =====
-- mitogen-0.2.9/ansible_mitogen/process.py: one multiplexer that is started and waited for.
use ansible_course.Base.{ℕ, true, false, [], ◌∷◌, ◌≤◌, refl, inl}
use ansible_course.AnsibleMitogen.Workers.Muxes.{
  exited, crashed, lost, starting, running, awaiting, ended, System, system, this, fork, receive,
  initialised, announce, crash, lose, wake, shut_down, drain_end, reap, initial,
}
use ansible_course.AnsibleMitogen.Workers.Muxes.Settled.{
  Steps, stay, go, Serves, AtRest, work, muxes-Settle,
}

abbrev start : System
start = system (starting 1) [] 0 false

whole_run : Steps 8 start (system ended (exited ∷ []) 0 true)
whole_run = go fork (
    go (announce this) (
      go receive (
        go initialised (
          go shut_down
            (go (wake this) (go (drain_end (inl refl, tt)) (go (reap (inl refl, tt)) stay)))))))

muxes-Settle_example :
    Serves 1 (system ended (exited ∷ []) 0 true)
    × (8 ≤ work start)
    × ((u : System) × (j : ℕ) × Steps j (system ended (exited ∷ []) 0 true) u × AtRest 1 u)
muxes-Settle_example = muxes-Settle (initial refl) whole_run

-- A multiplexer dies while the parent runs.
dies : Steps 5 start (system running (lost ∷ []) 0 false)
dies = go fork (go (announce this) (go receive (go initialised (go (lose this) stay))))

-- The parent waits for a multiplexer that crashed.
hangs : Steps 2 start (system (awaiting 0) (crashed ∷ []) 0 false)
hangs = go fork (go (crash this) stay)
