-- ===== src/AnsibleMitogen/Target/Files/Seen.antt =====
-- mitogen-0.2.9/ansible_mitogen/target.py: what is seen of a run, from its first call to its last.
use ansible_course.Base.{
  Bool, true, Text, String, Option, none, some, List, [], ◌∷◌, ◌++◌, ◌≡◌, ◌≢◌, ◌⊎◌, refl, ap, ◌∙◌,
  arith, string_key, inl, inr,
}
use text.Mathlib.TextEquality.{eq_iff}
use ansible_course.Base.Lists.{All, All-map}
use ansible_course.AnsibleMitogen.Target.Files.{
  File, Fs, Faults, unlink, Effect, create, replace, Outcome, returned, raised,
}
use ansible_course.AnsibleMitogen.Target.Files.Ends.{
  Tail, left, cleared, in_place, untimed, with_times,
}
use ansible_course.AnsibleMitogen.Target.Files.Disk.{
  put, apply, after, states, after-append, states-append, Edit, appended, Kept, put_self, put-Kept,
  Holds, edits_lem,
}

-- What is seen of the files while `path` is replaced: other files are as they were, and `path` is, or
-- it has the new content.
abbrev pub Seen : Fs → String → String → Text → Fs → Type 0
Seen fs tmp path s g =
    ((q : String) → tmp ≢ q → path ≢ q → g q ≡ fs q) × ((g path ≡ fs path) ⊎ Holds g path s)

-- How it ends: a run that returns leaves the new content and no temporary file; one that raises leaves
-- no temporary file unless its removal raised.
abbrev pub Ended : Faults → String → String → Text → Outcome → Fs → Type 0
Ended f tmp path s returned g = Holds g path s × (g tmp ≡ none)
Ended f tmp path s raised g = (f unlink ≡ true) ⊎ (g tmp ≡ none)

steady-Seen :
    (fs : Fs) (tmp path : String) (s : Text) (g : Fs)
    → tmp ≢ path
    → Kept tmp fs g
    → Seen fs tmp path s g
steady-Seen fs tmp path s g ne kept = ((λ q n _. kept q n), inl (kept path ne))

put_other : (p q : String) (v : Option File) (fs : Fs) → p ≢ q → put p v fs q ≡ fs q
put_other p q v fs ne = ground (arith, ne, eq_iff p q)

module _ (f : Faults) (fs : Fs) (tmp path : String) (s : Text) (ne : tmp ≢ path) where
  replaced-Holds : (g : Fs) → Holds g tmp s → Holds (apply tmp path replace g) path s
  replaced-Holds g (m, e) =
      (m, put_other tmp path none (put path (g tmp) g) ne ∙ (put_self path (g tmp) g ∙ e))

  replaced-Seen :
      (g : Fs) → Kept tmp fs g → Holds g tmp s → Seen fs tmp path s (apply tmp path replace g)
  replaced-Seen g kept file = (
    (λ q n m.
        put_other tmp q none (put path (g tmp) g) n ∙ (put_other path q (g tmp) g m ∙ kept q n)),
    inr (replaced-Holds g file),
  )

  ending-Seen :
      {ok : Bool} {tail : List Effect} {o : Outcome} (g : Fs)
      → Tail f ok tail o
      → Kept tmp fs g
      → (ok ≡ true → Holds g tmp s)
      → All (Seen fs tmp path s) (states tmp path tail g)
        × Ended f tmp path s o (after tmp path tail g)
  ending-Seen g (left broken) kept file = ((steady-Seen fs tmp path s g ne kept, tt), inl broken)
  ending-Seen g cleared kept file = (
    (
      steady-Seen fs tmp path s g ne kept,
      (steady-Seen fs tmp path s _ ne (put-Kept tmp none fs g kept), tt),
    ),
    inr (put_self tmp none g),
  )
  ending-Seen g (in_place ok) kept file = (
    (steady-Seen fs tmp path s g ne kept, (replaced-Seen g kept (file ok), tt)),
    (replaced-Holds g (file ok), put_self tmp none (put path (g tmp) g)),
  )
  ending-Seen g (untimed ok _) kept file = (
    (steady-Seen fs tmp path s g ne kept, (replaced-Seen g kept (file ok), tt)),
    inr (put_self tmp none (put path (g tmp) g)),
  )
  ending-Seen g (with_times ok) kept file = (
    (
      steady-Seen fs tmp path s g ne kept,
      (replaced-Seen g kept (file ok), (replaced-Seen g kept (file ok), tt)),
    ),
    (replaced-Holds g (file ok), put_self tmp none (put path (g tmp) g)),
  )

  -- The run from an edited temporary file on.
  pub run-Seen :
      (es : List Effect) (ok : Bool) (o : Outcome) (trace tail : List Effect)
      → fs tmp ≡ none
      → All Edit es
      → (ok ≡ true → appended es ≡ s)
      → trace ≡ (create ∷ es) ++ tail
      → Tail f ok tail o
      → All (Seen fs tmp path s) (states tmp path trace fs)
        × Ended f tmp path s o (after tmp path trace fs)
  run-Seen es ok o trace tail fresh edits full same t =
      let g0 = put tmp (some (record { content = []; mode = 384 })) fs in
      let (seen, kept, (m, e)) =
        edits_lem tmp path fs es g0 [] edits (put-Kept tmp _ fs fs (λ q _. refl))
          (384, put_self tmp _ fs) in
      let g = after tmp path es g0 in
      let (rest, ended) =
        ending-Seen g t kept
          (λ r. (m, e ∙ ap (λ (c : Text). some (record { content = c; mode = m })) (full r))) in
      let on_way =
        All-map (Kept tmp fs) (Seen fs tmp path s) (λ h. steady-Seen fs tmp path s h ne) _ seen in
      rw same (
        (
          steady-Seen fs tmp path s fs ne (λ q _. refl),
          states-append tmp path (Seen fs tmp path s) es tail g0 on_way rest,
        ),
        rw (after-append tmp path es tail g0) ended,
      )

  pub no_run :
      All (Seen fs tmp path s) (states tmp path [] fs)
      × (fs tmp ≡ none → Ended f tmp path s raised fs)
  no_run = ((steady-Seen fs tmp path s fs ne (λ q _. refl), tt), λ fresh. inr fresh)
