-- ===== src/AnsibleMitogen/Runner/TempFiles/Tests.antt =====
-- mitogen-0.2.9/ansible_mitogen/runner.py: two recorded descriptors, of which one was opened again.
use ansible_course.Base.{ℕ, none, some, List, [], ◌∷◌, ◌≡◌, refl, if◌then◌else◌, nat_key}
use ansible_course.AnsibleMitogen.Runner.TempFiles.{
  Identity, Descriptors, Watched, set_fd, wrap_mkstemp, revert,
}
use ansible_course.AnsibleMitogen.Runner.TempFiles.Closing.{leaked, revert-at}

abbrev fds : Descriptors
fds = set_fd (set_fd (λ k. none) 3 (some (1, 70))) 4 (some (1, 99))

abbrev recorded : List (ℕ × Identity)
recorded = (3, (1, 70)) ∷ (4, (1, 71)) ∷ []

revert-at_example : revert recorded fds 3 ≡ (if leaked recorded 3 (fds 3) then none else fds 3)
revert-at_example = revert-at recorded fds 3

recorded_lem :
    Watched.fd_dev_inode (wrap_mkstemp 3 (1, 70) (record { fds = λ k. none; fd_dev_inode = [] }))
    ≡ (3, (1, 70)) ∷ []
unfolding wrap_mkstemp
recorded_lem = refl
