-- ===== src/AnsibleMitogen/Workers/Muxes.antt =====
-- mitogen-0.2.9/ansible_mitogen/process.py: how the top-level process starts its multiplexers and waits for
-- them at its end, as steps of the processes. The pair of sockets between them is modelled by the bytes
-- on their way to the parent and by whether its end is shut, which wakes every multiplexer.
pub mod Inv
pub mod Settled
mod Tests
use ansible_course.Base.{ℕ, zero, suc, Bool, true, false, List, [], ◌∷◌, ◌≡◌, ◌⊎◌}
use ansible_course.Base.Lists.{All}

-- A `MuxProcess`: in `worker_main` before the byte is sent, blocked in `recv`, ended, ended by an
-- exception before the byte was sent, or killed while it listened.
pub data Mux : Type 0 where
  booting listening exited crashed lost : Mux

-- Where the parent is: in `ClassicWorkerModel.__init__` with a number of multiplexers to start, in `start`
-- behind the `fork`, past `__init__`, in `_on_process_exit` at the `recv` and at `waitpid`, and behind
-- it; or it died.
pub data Phase : Type 0 where
  starting awaiting : ℕ → Phase
  running draining reaping ended killed : Phase

-- The parent, the multiplexers with the latest first, the bytes on their way to the parent, and whether its
-- end is shut.
pub data System : Type 0 where
  system : Phase → List Mux → ℕ → Bool → System

-- One multiplexer changes.
pub data Moves (a b : Mux) : List Mux → List Mux → Type 0 where
  this : {ms : List Mux} → Moves a b (a ∷ ms) (b ∷ ms)
  another : {m : Mux} {ms ns : List Mux} → Moves a b ms ns → Moves a b (m ∷ ms) (m ∷ ns)

abbrev pub IsGone : Mux → Type 0
IsGone m = (m ≡ exited) ⊎ ((m ≡ crashed) ⊎ (m ≡ lost))

pub data Step : System → System → Type 0 where
  -- `MuxProcess.start`: the fork, and the byte that the parent waits for.
  fork :
      {left sent : ℕ} {ms : List Mux} {shut : Bool}
      → Step
          (system (starting (suc left)) ms sent shut)
          (system (awaiting left) (booting ∷ ms) sent shut)
  receive :
      {left sent : ℕ} {ms : List Mux} {shut : Bool}
      → Step (system (awaiting left) ms (suc sent) shut) (system (starting left) ms sent shut)
  -- The loop of `__init__` is over.
  initialised :
      {sent : ℕ} {ms : List Mux} {shut : Bool}
      → Step (system (starting zero) ms sent shut) (system running ms sent shut)
  -- `worker_main`: the byte is sent, or something raises before.
  announce :
      {p : Phase} {sent : ℕ} {ms ns : List Mux}
      → Moves booting listening ms ns
      → Step (system p ms sent false) (system p ns (suc sent) false)
  crash :
      {p : Phase} {sent : ℕ} {ms ns : List Mux} {shut : Bool}
      → Moves booting crashed ms ns
      → Step (system p ms sent shut) (system p ns sent shut)
  -- A multiplexer that listens dies.
  lose :
      {p : Phase} {sent : ℕ} {ms ns : List Mux} {shut : Bool}
      → Moves listening lost ms ns
      → Step (system p ms sent shut) (system p ns sent shut)
  -- `worker_main`: `recv` returns, and the process ends.
  wake :
      {p : Phase} {sent : ℕ} {ms ns : List Mux}
      → Moves listening exited ms ns
      → Step (system p ms sent true) (system p ns sent true)
  -- `_on_process_exit`
  shut_down :
      {sent : ℕ} {ms : List Mux} {shut : Bool}
      → Step (system running ms sent shut) (system draining ms sent true)
  drain_byte :
      {sent : ℕ} {ms : List Mux} {shut : Bool}
      → Step (system draining ms (suc sent) shut) (system reaping ms sent shut)
  drain_end :
      {ms : List Mux} {shut : Bool}
      → All IsGone ms
      → Step (system draining ms zero shut) (system reaping ms zero shut)
  reap :
      {sent : ℕ} {ms : List Mux} {shut : Bool}
      → All IsGone ms
      → Step (system reaping ms sent shut) (system ended ms sent shut)

-- The parent dies: its end of the sockets is closed.
abbrev pub die : System → System
die (system p ms sent shut) = system killed ms sent true

-- What the parent of `n` multiplexers and they come to.
pub data Reached (n : ℕ) : System → Type 0 where
  initial : {s : System} → s ≡ system (starting n) [] 0 false → Reached n s
  then_step : {s t : System} → Reached n s → Step s t → Reached n t
  then_die : {s t : System} → Reached n s → t ≡ die s → Reached n t
