-- ===== src/AnsibleMitogen/Affinity.antt =====
-- mitogen-0.2.9/ansible_mitogen/affinity.py: which CPUs the processes of a run are pinned to.
pub mod Placement
pub mod CpuSet
mod Tests
use Prim.Native.Nat.{bit_and}
use ansible_course.Base.{
  ℕ, zero, suc, ◌+◌, ◌-◌, ◌*◌, ◌/◌, ◌%◌, ◌^◌, Bool, true, false, List, [], ◌∷◌, ◌++◌, ltb,
  if◌then◌else◌,
}

-- `FixedPolicy`, with the shared counter, a `c_uint8`, and what was set: whether the hook that clears
-- the mask of children is installed, and the masks given to the kernel, the last one first.
pub record Policy : Type 0 where
  pub cpu_count : ℕ
  pub reserve_mux : Bool
  pub reserve_controller : Bool
  pub reserve_mask : ℕ
  pub reserve_shift : ℕ
  pub counter : ℕ
  pub hook : Bool
  pub masks : List ℕ

abbrev fixed : ℕ → Bool → Bool → ℕ → ℕ → Policy
fixed cpu_count mux controller mask shift = record {
  cpu_count = cpu_count;
  reserve_mux = mux;
  reserve_controller = controller;
  reserve_mask = mask;
  reserve_shift = shift;
  counter = 0;
  hook = false;
  masks = [];
}

-- `FixedPolicy.__init__`
pub init : ℕ → Policy
init cpu_count =
    if ltb cpu_count 2
    then fixed cpu_count false false 0 0
    else if ltb cpu_count 4
    then fixed cpu_count true false 1 1
    else fixed cpu_count true true 3 2

-- `_set_affinity`
set_affinity : ℕ → Policy → Policy
set_affinity mask p = record p { hook = true; masks = mask ∷ p.masks }

-- `_set_cpu`: `1 << (cpu % self.cpu_count)`
pub set_cpu : ℕ → Policy → Policy
unfolding set_affinity
set_cpu cpu p = set_affinity (2 ^ (cpu % p.cpu_count)) p

-- `_balance`
pub balance : Policy → Policy
unfolding set_cpu
balance p =
    let n = p.counter in
    set_cpu (p.reserve_shift + n % (p.cpu_count - p.reserve_shift))
      (record p { counter = (p.counter + 1) % 256 })

-- `_clear`: `all_cpus & ~self._reserve_mask`
pub clear : Policy → Policy
unfolding set_affinity
clear p =
    let all_cpus = 2 ^ p.cpu_count - 1 in
    set_affinity (all_cpus - bit_and all_cpus p.reserve_mask) p

pub assign_controller : Policy → Policy
unfolding set_cpu balance
assign_controller p = if p.reserve_controller then set_cpu 1 p else balance p

pub assign_muxprocess : ℕ → Policy → Policy
unfolding set_cpu
assign_muxprocess index p = set_cpu index p

pub assign_worker : Policy → Policy
unfolding balance
assign_worker p = balance p

pub assign_subprocess : Policy → Policy
unfolding clear
assign_subprocess p = clear p

-- `struct.pack('<Q', …)`: the bytes of a number, the least first.
pub pack : ℕ → ℕ → List ℕ
pack zero m = []
pack (suc k) m = (m % 256) ∷ pack k (m / 256)

-- The rounds of `LinuxPolicy._mask_to_bytes`: `mask & (2 ** 64 - 1)`, then `mask >>= 64`.
pub chunks : ℕ → ℕ → List ℕ
unfolding pack
chunks zero mask = []
chunks (suc x) mask = pack 8 (mask % 2 ^ 64) ++ chunks x (mask / 2 ^ 64)

pub mask_to_bytes : ℕ → List ℕ
unfolding chunks
mask_to_bytes mask = chunks 16 mask
