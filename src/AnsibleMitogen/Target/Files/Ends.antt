-- ===== src/AnsibleMitogen/Target/Files/Ends.antt =====
-- mitogen-0.2.9/ansible_mitogen/target.py: how the calls behind the filling of a temporary file end.
use mathlib.Core.List.{append-nil, append_assoc}
use ansible_course.Base.{
  Bool, true, false, List, [], ◌∷◌, ◌++◌, ◌≡◌, refl, ap, not, ◌&&◌, string_key, Bool-cases, inl,
  inr,
}
use ansible_course.AnsibleMitogen.Target.Files.{
  Faults, close, rename, unlink, utime, Effect, replace, remove, touch, Try, then_try, attempt,
  Outcome, returned, raised, publish, placed, cleaned, timed,
}

-- The trace of a run behind `es`, where `ok` says that the temporary file was filled: nothing more or
-- the removal, if it raises with the file not in place; or the replacement and perhaps the times.
pub data Tail (f : Faults) (ok : Bool) : List Effect → Outcome → Type 0 where
  left : f unlink ≡ true → Tail f ok [] raised
  cleared : Tail f ok (remove ∷ []) raised
  in_place : ok ≡ true → Tail f ok (replace ∷ []) returned
  untimed : ok ≡ true → f utime ≡ true → Tail f ok (replace ∷ []) raised
  with_times : ok ≡ true → Tail f ok (replace ∷ touch ∷ []) returned

-- What has to go well behind the filling.
abbrev pub goes : Faults → Bool → Bool → Bool
goes f sync utimes = not (f close) && (not sync && (not (f rename) && not (utimes && f utime)))

abbrev pub outcome_if : Bool → Outcome
outcome_if true = returned
outcome_if false = raised

-- A run whose temporary file was filled by `es`, or not.
abbrev Ends : Faults → Bool → List Effect → Bool → List Effect × Outcome → Type 0
Ends f ok es good r =
    (tail : List Effect) × (r ≡ (es ++ tail, outcome_if good)) × Tail f ok tail (outcome_if good)

cleaned-Ends : (f : Faults) (ok : Bool) (es : List Effect) → Ends f ok es false (cleaned f es)
cleaned-Ends f ok es = elim (Bool-cases (f unlink)) [
  | inl t ↦ ([], rw (t, append-nil) refl, left t)
  | inr n ↦ (remove ∷ [], rw n refl, cleared)
]

nothing_more : (f : Faults) (es : List Effect) → cleaned f (es ++ []) ≡ cleaned f es
nothing_more f es = ap (cleaned f) (append-nil es)

timed-Ends :
    (f : Faults) (utimes : Bool) (es : List Effect)
    → Ends f true es (not (utimes && f utime)) (timed f utimes (es ++ (replace ∷ [])))
timed-Ends f false es = (replace ∷ [], refl, in_place refl)
timed-Ends f true es = elim (Bool-cases (f utime)) [
  | inl t ↦ rw t (replace ∷ [], refl, untimed refl t)
  | inr n ↦ rw n (
    replace ∷ touch ∷ [],
    ap (λ t. (t, returned)) (append_assoc es (replace ∷ []) (touch ∷ [])),
    with_times refl,
  )
]

-- The calls behind the filling, by which of them raise.
behind-Ends :
    (f : Faults) (utimes ok closing sync renaming : Bool) (es : List Effect)
    → Ends f ok es
        (ok && (not closing && (not sync && (not renaming && not (utimes && f utime)))))
        (placed f utimes (
          then_try
            (es, ok)
            (then_try
              (attempt closing [])
              (then_try (attempt sync []) (attempt renaming (replace ∷ []))))))
behind-Ends f utimes false closing sync renaming es = cleaned-Ends f false es
behind-Ends f utimes true true sync renaming es = rw nothing_more (cleaned-Ends f true es)
behind-Ends f utimes true false true renaming es = rw nothing_more (cleaned-Ends f true es)
behind-Ends f utimes true false false true es = rw nothing_more (cleaned-Ends f true es)
behind-Ends f utimes true false false false es = timed-Ends f utimes es

pub publish-Ends :
    (f : Faults) (sync utimes : Bool) (filled : Try)
    → Ends f filled.1 filled.0 (filled.1 && goes f sync utimes) (publish f sync utimes filled)
unfolding publish
publish-Ends f sync utimes (es, ok) = behind-Ends f utimes ok (f close) sync (f rename) es
