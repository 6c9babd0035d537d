-- ===== src/AnsibleMitogen/Affinity/Placement.antt =====
-- mitogen-0.2.9/ansible_mitogen/affinity.py: workers stay off the CPUs that are reserved.
use native.Mathlib.Nat.{mod-lt, mod-eq_of_lt}
use ansible_course.Base.{ℕ, ◌+◌, ◌-◌, ◌%◌, ◌^◌, ◌≤◌, ◌<◌, List, [], ◌∷◌, ◌≡◌, ap, arith}
use ansible_course.AnsibleMitogen.Affinity.{
  Policy, init, assign_controller, assign_muxprocess, assign_worker, assign_subprocess,
}

-- What `__init__` fixes for `n` CPUs and no method changes.
pub record IsFor (n : ℕ) (p : Policy) : Type 0 where
  pub cpus : p.cpu_count ≡ n
  pub room : p.reserve_shift < n
  pub off_mux : 2 ≤ n → 1 ≤ p.reserve_shift
  pub off_controller : 4 ≤ n → 2 ≤ p.reserve_shift
  pub counter_byte : p.counter < 256

init-IsFor : (n : ℕ) → 1 ≤ n → IsFor n (init n)
unfolding init
init-IsFor n h = ground arith

-- The calls that the processes of a run make, in some order.
pub data Call : Type 0 where
  controller worker subprocess : Call
  muxprocess : ℕ → Call

pub call : Call → Policy → Policy
call controller p = assign_controller p
call worker p = assign_worker p
call subprocess p = assign_subprocess p
call (muxprocess index) p = assign_muxprocess index p

pub run : List Call → Policy → Policy
unfolding call
run [] p = p
run (c ∷ cs) p = run cs (call c p)

call-IsFor : (n : ℕ) (c : Call) (p : Policy) → IsFor n p → IsFor n (call c p)
unfolding call assign_controller assign_worker assign_subprocess assign_muxprocess
call-IsFor n controller p h = ground arith
call-IsFor n worker p h = ground arith
call-IsFor n subprocess p h = ground arith
call-IsFor n (muxprocess index) p h = ground arith

run-IsFor : (n : ℕ) (cs : List Call) (p : Policy) → IsFor n p → IsFor n (run cs p)
unfolding run
run-IsFor n [] p h = h
run-IsFor n (c ∷ cs) p h = run-IsFor n cs (call c p) (call-IsFor n c p h)

slot-lt : (shift counter n : ℕ) → shift < n → shift + counter % (n - shift) < n
slot-lt shift counter n h = omega (arith, mod-lt counter {m = n - shift} (omega arith))

worker-mask :
    (n : ℕ) (p : Policy)
    → IsFor n p
    → (cpu : ℕ) × ((assign_worker p).masks ≡ 2 ^ cpu ∷ p.masks)
      × (p.reserve_shift ≤ cpu)
      × (cpu < n)
unfolding assign_worker
worker-mask n p h =
    let cpu = p.reserve_shift + p.counter % (p.cpu_count - p.reserve_shift) in
    let exists : cpu < p.cpu_count = slot-lt p.reserve_shift p.counter p.cpu_count (omega arith) in
    (cpu, ap (λ (c : ℕ). 2 ^ c ∷ p.masks) (mod-eq_of_lt exists), omega arith, omega arith)

-- On a machine with `n` CPUs, after any calls of the processes of a run, a worker is pinned to one CPU
-- that exists; with two CPUs or more it is not CPU 0, the multiplexer's, and with four or more it is
-- not CPU 1, the top-level process's, either.
pub worker_avoids_reserved :
    (n : ℕ) (cs : List Call)
    → 1 ≤ n
    → let p = run cs (init n) in
      (cpu : ℕ) × ((assign_worker p).masks ≡ 2 ^ cpu ∷ p.masks)
      × (cpu < n)
      × (2 ≤ n → 1 ≤ cpu)
      × (4 ≤ n → 2 ≤ cpu)
worker_avoids_reserved n cs h =
    let p = run cs (init n) in
    let for_n = run-IsFor n cs (init n) (init-IsFor n h) in
    let (cpu, e, low, high) = worker-mask n p for_n in
    (cpu, e, high, (λ two. omega arith), λ four. omega arith)
