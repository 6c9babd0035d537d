-- ===== src/AnsibleMitogen/Affinity/Tests.antt =====
-- mitogen-0.2.9/ansible_mitogen/affinity.py: a machine with eight CPUs.
use ansible_course.Base.{ℕ, ◌^◌, ◌≤◌, ◌<◌, List, [], ◌∷◌, ◌≡◌, arith}
use ansible_course.AnsibleMitogen.Affinity.{init, assign_worker}
use ansible_course.AnsibleMitogen.Affinity.Placement.{
  Call, controller, worker, subprocess, muxprocess, run, worker_avoids_reserved,
}

abbrev calls : List Call
calls = muxprocess 0 ∷ controller ∷ worker ∷ subprocess ∷ worker ∷ []

worker_avoids_reserved_example :
    let p = run calls (init 8) in
    (cpu : ℕ) × ((assign_worker p).masks ≡ 2 ^ cpu ∷ p.masks)
    × (cpu < 8)
    × (2 ≤ 8 → 1 ≤ cpu)
    × (4 ≤ 8 → 2 ≤ cpu)
worker_avoids_reserved_example = worker_avoids_reserved 8 calls (omega arith)
