-- ===== src/AnsibleMitogen/Runner/TempFiles/Closing.antt =====
-- mitogen-0.2.9/ansible_mitogen/runner.py: which descriptors are closed.
use ansible_course.Base.{
  ℕ, Bool, true, false, Option, none, List, [], ◌∷◌, ◌==◌, ◌&&◌, ◌||◌, ◌≡◌, ◌⊎◌, refl, sym, ◌∙◌,
  nat_key, nat_same_iff, if◌then◌else◌, Bool-cases, inl, inr, arith,
}
use ansible_course.AnsibleMitogen.Runner.TempFiles.{
  Identity, Descriptors, set_fd, same_file, revert_one, revert,
}

-- Whether a descriptor was recorded for the file that it has now.
abbrev pub leaked : List (ℕ × Identity) → ℕ → Option Identity → Bool
leaked [] k now = false
leaked ((fd, file) ∷ rest) k now = ((fd == k) && same_file now file) || leaked rest k now

leaked-none : (recorded : List (ℕ × Identity)) (k : ℕ) → leaked recorded k none ≡ false
unfolding same_file
leaked-none [] k = refl
leaked-none ((fd, file) ∷ rest) k = ground (arith, leaked-none rest k)

one-at :
    (fd k : ℕ) (file : Identity) (fds : Descriptors)
    → revert_one fd file fds k ≡ (if (fd == k) && same_file (fds k) file then none else fds k)
unfolding revert_one
one-at fd k file fds = elim (Bool-cases (fd == k)) [
  | inl t ↦ rw (sym ((nat_same_iff fd k).0 t)) (go (Bool-cases (same_file (fds fd) file)))
  | inr n ↦ rw n (ground arith)
]
  where
    go :
        (same_file (fds fd) file ≡ true) ⊎ (same_file (fds fd) file ≡ false)
        → (if same_file (fds fd) file then set_fd fds fd none else fds) fd
          ≡ (if (fd == fd) && same_file (fds fd) file then none else fds fd)
    go h = ground arith

-- After `revert` a descriptor is closed if it was recorded for the file that it has now. Any other,
-- one that has been closed and opened for another file too, is as it was.
pub revert-at :
    (recorded : List (ℕ × Identity)) (fds : Descriptors) (k : ℕ)
    → revert recorded fds k ≡ (if leaked recorded k (fds k) then none else fds k)
unfolding revert
revert-at [] fds k = refl
revert-at ((fd, file) ∷ rest) fds k =
    revert-at rest (revert_one fd file fds) k
    ∙ elim (Bool-cases ((fd == k) && same_file (fds k) file)) [
      | inl t ↦ rw (one-at, t, leaked-none) refl
      | inr n ↦ rw (one-at, n) refl
    ]
