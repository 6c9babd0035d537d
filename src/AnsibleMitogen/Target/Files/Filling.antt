-- ===== src/AnsibleMitogen/Target/Files/Filling.antt =====
-- mitogen-0.2.9/ansible_mitogen/target.py: what fills a temporary file.
use ansible_course.Base.{
  Bool, true, false, Text, Option, none, some, List, [], ◌∷◌, ◌++◌, ◌≡◌, refl, ap, ◌∙◌, sym,
  string_key, Bool-cases, inl, inr,
}
use mathlib.Core.List.{append-nil, append_assoc}
use ansible_course.AnsibleMitogen.Target.Chmod.{
  Spec, NewMode, chmod_to, value_error, bad_clause, bad_permission, set_file_mode,
}
use ansible_course.Base.Lists.{All, All-append}
use ansible_course.AnsibleMitogen.Target.Files.{
  Faults, Effect, create, set_mode, append, replace, remove, touch, Try, then_try, attempt,
  mode_try, set_to, truthy_spec, optional_mode, optional_owner, set_file_owner, chmod, chown_with,
  lookup,
}
use ansible_course.AnsibleMitogen.Target.Files.Disk.{Edit, appended}

-- A run that fills the temporary file by edits, and if that goes well, with the new content.
abbrev pub Fills : Text → Try → Type 0
Fills s (es, ok) = All Edit es × (ok ≡ true → appended es ≡ s)

-- An edit that adds nothing to the content, before or behind the one that does.
abbrev Quiet : Try → Type 0
Quiet (es, ok) = All Edit es × (appended es ≡ [])

appended-append :
    (es fs : List Effect) → All Edit es → appended (es ++ fs) ≡ appended es ++ appended fs
appended-append [] fs edits = refl
appended-append (set_mode m ∷ es) fs (_, edits) = appended-append es fs edits
appended-append (append t ∷ es) fs (_, edits) =
    ap (λ r. t ++ r) (appended-append es fs edits)
    ∙ sym (append_assoc t (appended es) (appended fs))
appended-append (create ∷ es) fs (never, _) = absurd never
appended-append (replace ∷ es) fs (never, _) = absurd never
appended-append (remove ∷ es) fs (never, _) = absurd never
appended-append (touch ∷ es) fs (never, _) = absurd never

pub behind-Fills : (s : Text) (a b : Try) → Quiet a → Fills s b → Fills s (then_try a b)
behind-Fills s (es, true) (gs, ok) (edits, none_added) (more, full) = (
  All-append Edit es gs edits more,
  λ r. appended-append es gs edits ∙ (ap (λ t. t ++ appended gs) none_added ∙ full r),
)
behind-Fills s (es, false) b (edits, none_added) fills = (edits, λ r. cc r)

pub behind-Quiet : (a b : Try) → Quiet a → Quiet b → Quiet (then_try a b)
behind-Quiet (es, true) (gs, ok) (edits, none_added) (more, none_more) = (
  All-append Edit es gs edits more,
  appended-append es gs edits ∙ (ap (λ t. t ++ appended gs) none_added ∙ none_more),
)
behind-Quiet (es, false) b quiet more = quiet

pub mode-Quiet : (f : Faults) (spec : Spec) → Quiet (mode_try f spec)
unfolding mode_try
mode-Quiet f spec = go (f chmod) (set_file_mode spec 384)
  where
    go : (fails : Bool) (m : NewMode) → Quiet (set_to fails m)
    go true (chmod_to m) = (tt, refl)
    go false (chmod_to m) = ((tt, tt), refl)
    go fails value_error = (tt, refl)
    go fails bad_clause = (tt, refl)
    go fails bad_permission = (tt, refl)

pub optional-Quiet : (f : Faults) (mode : Option Spec) → Quiet (optional_mode f mode)
optional-Quiet f none = (tt, refl)
optional-Quiet f (some spec) = elim (Bool-cases (truthy_spec (some spec))) [
  | inl t ↦ rw t (mode-Quiet f spec)
  | inr n ↦ rw n (tt, refl)
]

pub owner-Quiet : (f : Faults) (wanted : Bool) → Quiet (optional_owner f wanted)
unfolding set_file_owner chown_with
owner-Quiet f true = elim (Bool-cases (f lookup)) [
  | inl t ↦ rw t (tt, refl)
  | inr n ↦ rw n (tt, refl)
]
owner-Quiet f false = (tt, refl)

pub attempt-Fills : (s : Text) (fails : Bool) → Fills s (attempt fails (append s ∷ []))
attempt-Fills s true = (tt, λ r. cc r)
attempt-Fills s false = ((tt, tt), λ r. append-nil s)

pub received-Fills :
    (s : Text) (ok : Bool) (b : Try) → Quiet b → Fills s (then_try (append s ∷ [], ok) b)
received-Fills s true (gs, ok) (more, none_more) =
    ((tt, more), λ r. ap (λ t. s ++ t) none_more ∙ append-nil s)
received-Fills s false b quiet = ((tt, tt), λ r. cc r)
