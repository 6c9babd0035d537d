-- ===== src/AnsibleMitogen/Target/Files/Atomic.antt =====
-- mitogen-0.2.9/ansible_mitogen/target.py: a file is seen as it was or as it will be.
use ansible_course.Base.{
  Bool, true, Text, String, none, List, ◌∷◌, ◌++◌, ◌≡◌, ◌≢◌, refl, not, ◌&&◌, string_key,
  Bool-cases, inl, inr,
}
use ansible_course.Base.Lists.{All}
use ansible_course.AnsibleMitogen.Target.Files.{
  Fs, Faults, mkstemp, Effect, create, Try, Outcome, publish, created, mode_try, optional_mode,
  optional_owner, Options, write_path, Transfer, transfer_file, write, receive,
}
use ansible_course.AnsibleMitogen.Target.Files.Ends.{publish-Ends}
use ansible_course.AnsibleMitogen.Target.Files.Disk.{after, states}
use ansible_course.AnsibleMitogen.Target.Files.Seen.{Seen, Ended, no_run, run-Seen}
use ansible_course.AnsibleMitogen.Target.Files.Filling.{
  Fills, behind-Fills, received-Fills, attempt-Fills, behind-Quiet, mode-Quiet, optional-Quiet,
  owner-Quiet,
}

-- All of this, for a run with a trace and an outcome.
abbrev pub IsAtomic : Faults → Fs → String → String → Text → List Effect × Outcome → Type 0
IsAtomic f fs tmp path s (trace, o) =
    All (Seen fs tmp path s) (states tmp path trace fs)
    × Ended f tmp path s o (after tmp path trace fs)

created-IsAtomic :
    (f : Faults) (fs : Fs) (tmp path : String) (s : Text) (sync utimes : Bool) (filled : Try)
    → tmp ≢ path
    → fs tmp ≡ none
    → Fills s filled
    → IsAtomic f fs tmp path s (created f (publish f sync utimes) filled)
created-IsAtomic f fs tmp path s sync utimes (es, ok) ne fresh (edits, full) =
    elim (Bool-cases (f mkstemp)) [
      | inl t ↦ rw t (let (seen, ended) = no_run f fs tmp path s ne in (seen, ended fresh))
      | inr n ↦
          let (tail, e, t) = publish-Ends f sync utimes (create ∷ es, ok) in
          rw (n, e)
            (run-Seen f fs tmp path s ne es ok _ ((create ∷ es) ++ tail) tail fresh edits full refl
              t)
    ]

-- For a temporary file that is new and not the file itself, whatever calls raise: at every moment of
-- `write_path` and of `transfer_file` the file is as it was or has all of the new content, and every
-- other file but the temporary one is as it was; if they return, the file has the new content and
-- there is no temporary file; and if they raise, there is none unless its removal raised.
pub write_path-IsAtomic :
    (f : Faults) (fs : Fs) (tmp path : String) (o : Options) (s : Text) (sync set_owner : Bool)
    (t : Transfer)
    → tmp ≢ path
    → fs tmp ≡ none
    → IsAtomic f fs tmp path s (write_path f o s)
      × IsAtomic f fs tmp path t.data_ (transfer_file f sync set_owner t)
unfolding write_path transfer_file
write_path-IsAtomic f fs tmp path o s sync set_owner t ne fresh = (
  created-IsAtomic f fs tmp path s o.sync o.utimes _ ne fresh (
      behind-Fills s (optional_mode f o.mode) _ (optional-Quiet f o.mode) (
        behind-Fills s (optional_owner f o.owned) _ (owner-Quiet f o.owned)
          (attempt-Fills s (f write)))),
  created-IsAtomic f fs tmp path t.data_ sync true _ ne fresh (
      received-Fills t.data_ (not (f receive) && t.ok) _
        (behind-Quiet (mode_try f t.mode) _ (mode-Quiet f t.mode) (owner-Quiet f set_owner))),
)
