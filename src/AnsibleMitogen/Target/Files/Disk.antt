-- ===== src/AnsibleMitogen/Target/Files/Disk.antt =====
-- mitogen-0.2.9/ansible_mitogen/target.py: what the calls do to the files, and what is seen of it.
use mathlib.Core.List.{append_assoc, append-nil}
use ansible_course.Base.{
  ℕ, Text, String, Option, none, some, List, [], ◌∷◌, ◌++◌, ◌==◌, ◌≡◌, ◌≢◌, refl, ap, ◌∙◌, arith,
  string_key, if◌then◌else◌,
}
use text.Mathlib.TextEquality.{eq_iff}
use mathlib.Core.Option
use ansible_course.Base.Lists.{All}
use ansible_course.AnsibleMitogen.Target.Files.{
  File, Fs, Effect, create, set_mode, append, replace, remove, touch,
}

abbrev pub put : String → Option File → Fs → Fs
put p v fs q = if p == q then v else fs q

-- The temporary file and the file that it replaces.
module _ (tmp path : String) where
  abbrev pub apply : Effect → Fs → Fs
  apply create fs = put tmp (some (record { content = []; mode = 384 })) fs
  apply (set_mode m) fs = put tmp (Option.map (λ (f : File). record f { mode = m }) (fs tmp)) fs
  apply (append t) fs =
      put tmp (Option.map (λ (f : File). record f { content = f.content ++ t }) (fs tmp)) fs
  apply replace fs = put tmp none (put path (fs tmp) fs)
  apply remove fs = put tmp none fs
  apply touch fs = fs

  -- The state at the end, and all states on the way.
  abbrev pub after : List Effect → Fs → Fs
  after [] fs = fs
  after (e ∷ es) fs = after es (apply e fs)

  abbrev pub states : List Effect → Fs → List Fs
  states [] fs = fs ∷ []
  states (e ∷ es) fs = fs ∷ states es (apply e fs)

  pub after-append :
      (es tail : List Effect) (fs : Fs) → after (es ++ tail) fs ≡ after tail (after es fs)
  after-append [] tail fs = refl
  after-append (e ∷ es) tail fs = after-append es tail (apply e fs)

  pub states-append {ℓ} :
      (P : Fs → Type ℓ) (es tail : List Effect) (fs : Fs)
      → All P (states es fs)
      → All P (states tail (after es fs))
      → All P (states (es ++ tail) fs)
  states-append P [] tail fs seen more = more
  states-append P (e ∷ es) tail fs (h, seen) more =
      (h, states-append P es tail (apply e fs) seen more)

-- A change to the temporary file that is there.
abbrev pub Edit : Effect → Type 0
Edit (set_mode _) = Unit
Edit (append _) = Unit
Edit _ = ⊥

abbrev pub appended : List Effect → Text
appended [] = []
appended (append t ∷ es) = t ++ appended es
appended (_ ∷ es) = appended es

-- All other files are as they were.
abbrev pub Kept : String → Fs → Fs → Type 0
Kept tmp fs g = (q : String) → tmp ≢ q → g q ≡ fs q

pub put_self : (p : String) (v : Option File) (fs : Fs) → put p v fs p ≡ v
put_self p v fs = ground (arith, eq_iff p p)

pub put-Kept :
    (tmp : String) (v : Option File) (fs g : Fs) → Kept tmp fs g → Kept tmp fs (put tmp v g)
put-Kept tmp v fs g kept q ne = ground (arith, kept q, eq_iff tmp q, ne)

-- The temporary file's content, whatever its mode.
abbrev pub Holds : Fs → String → Text → Type 0
Holds g p t = (m : ℕ) × (g p ≡ some (record { content = t; mode = m }))

grouped :
    (g : Fs) (p : String) (t u v r : Text)
    → r ≡ (t ++ u) ++ v
    → Holds g p r
    → Holds g p (t ++ (u ++ v))
grouped g p t u v r same (m, e) =
    (m, e ∙ ap (λ (c : Text). some (record { content = c; mode = m })) (same ∙ append_assoc t u v))

module _ (tmp path : String) (fs : Fs) where
  pub edits_lem :
      (es : List Effect) (g : Fs) (t : Text)
      → All Edit es
      → Kept tmp fs g
      → Holds g tmp t
      → All (Kept tmp fs) (states tmp path es g)
        × Kept tmp fs (after tmp path es g)
        × Holds (after tmp path es g) tmp (t ++ appended es)
  edits_lem [] g t edits kept (m, e) = ((kept, tt), kept, (m, rw append-nil e))
  edits_lem (set_mode k ∷ es) g t (_, edits) kept (m, e) =
      let g' = apply tmp path (set_mode k) g in
      let (seen, end, file) =
        edits_lem es g' t edits (put-Kept tmp _ fs g kept) (k, put_self tmp _ g ∙ rw e refl) in
      ((kept, seen), end, file)
  edits_lem (append u ∷ es) g t (_, edits) kept (m, e) =
      let g' = apply tmp path (append u) g in
      let (seen, end, file) =
        edits_lem es g' (t ++ u) edits (put-Kept tmp _ fs g kept)
          (m, put_self tmp _ g ∙ rw e refl) in
      ((kept, seen), end, grouped (after tmp path es g') tmp t u (appended es) _ refl file)
  edits_lem (create ∷ es) g t (never, _) kept file = absurd never
  edits_lem (replace ∷ es) g t (never, _) kept file = absurd never
  edits_lem (remove ∷ es) g t (never, _) kept file = absurd never
  edits_lem (touch ∷ es) g t (never, _) kept file = absurd never
