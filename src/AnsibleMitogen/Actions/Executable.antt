-- ===== src/AnsibleMitogen/Actions/Executable.antt =====
-- mitogen-0.2.9/ansible_mitogen/mixins.py: what `_fixup_perms2` does to the files of the target.
use mathlib.Core.Path.{subst}
use ansible_course.Base.{
  ℕ, Bool, true, false, Text, Option, none, some, List, [], ◌∷◌, ◌==◌, ◌&&◌, ◌||◌, not, ◌≡◌, refl,
  sym, ap, ◌∙◌, inl, inr, arith, nat_key, text_key, text_same_iff, Bool-cases, Option-cases,
  if◌then◌else◌,
}
use ansible_course.Base.Lists.{codes, contains}
use ansible_course.Base.Bits.{bit}
use ansible_course.Base.Dict.{is_some}
use ansible_course.AnsibleMitogen.Target.Chmod.{text, chmod_to}
use ansible_course.AnsibleMitogen.Target.Chmod.Execute.{set_file_mode-execute}
use ansible_course.AnsibleMitogen.Actions.{
  Modes, CommandResult, command_result, new_mode, call_set_file_mode, call_on_chain, call_async_all,
  remote_chmod, fake_shell, fixup_perms2, fixup_perms_red_herring, value, call_error,
}

-- A mode afterwards: with the owner's right to execute if the file was hit, and else the same.
abbrev pub After : Bool → ℕ → Option ℕ → Type 0
After hit m o = (n : ℕ) × (o ≡ some n) × ((i : ℕ) → bit i n ≡ ((hit && (i == 6)) || bit i m))

module _ (refuses : Text → Bool) where
  abbrev one : Text → Modes → Modes × Bool
  one path fs = call_set_file_mode refuses (text (codes "u+x")) path fs

  one_made :
      (path : Text) (fs : Modes) (m : ℕ)
      → refuses path ≡ false
      → fs path ≡ some m
      → (n : ℕ) × (one path fs ≡ new_mode path (chmod_to n) fs)
        × ((i : ℕ) → bit i n ≡ ((i == 6) || bit i m))
  unfolding call_set_file_mode
  one_made path fs m free e =
      let (n, made, each) = set_file_mode-execute m in (n, rw (free, e, made) refl, each)

  one-refused : (path : Text) (fs : Modes) → refuses path ≡ true → one path fs ≡ (fs, false)
  unfolding call_set_file_mode
  one-refused path fs r = rw r refl

  one-missing :
      (path : Text) (fs : Modes) → refuses path ≡ false → fs path ≡ none → one path fs ≡ (fs, false)
  unfolding call_set_file_mode
  one-missing path fs free e = rw (free, e) refl

  same-After : (hit : Bool) (m : ℕ) (o : Option ℕ) → o ≡ some m → hit ≡ false → After hit m o
  same-After hit m o e h = (m, e, λ i. rw h refl)

  one-After :
      (path : Text) (fs : Modes) (p : Text) (m : ℕ)
      → fs p ≡ some m
      → After ((path == p) && not (refuses p)) m ((one path fs).0 p)
  one-After path fs p m e = elim (Bool-cases (refuses path)) [
    | inl r ↦
        rw (one-refused path fs r)
          (same-After _ m (fs p) e (ground (arith, r, text_same_iff path p)))
    | inr free ↦ elim (Option-cases (fs path)) [
      | inl none_there ↦
          rw (one-missing path fs free none_there)
            (same-After _ m (fs p) e (ground (arith, none_there, e, text_same_iff path p)))
      | inr (k, there) ↦
          let (n, made, each) = one_made path fs k free there in
          rw made (elim (Bool-cases (path == p)) [
            | inl same ↦ (
              n,
              ground (arith, same),
              λ i. ground (arith, each i, same, free, there, e, text_same_iff path p),
            )
            | inr other ↦ (m, ground (arith, other, e), λ i. ground (arith, other))
          ])
    ]
  ]

  one-there : (path : Text) (fs : Modes) (p : Text) → is_some ((one path fs).0 p) ≡ is_some (fs p)
  one-there path fs p = elim (Bool-cases (refuses path)) [
    | inl r ↦ rw (one-refused path fs r) refl
    | inr free ↦ elim (Option-cases (fs path)) [
      | inl e ↦ rw (one-missing path fs free e) refl
      | inr (k, e) ↦
          let (n, made, each) = one_made path fs k free e in
          rw made (ground (arith, e, text_same_iff path p))
    ]
  ]

  one-ok : (path : Text) (fs : Modes) → (one path fs).1 ≡ (is_some (fs path) && not (refuses path))
  one-ok path fs = elim (Bool-cases (refuses path)) [
    | inl r ↦ rw (one-refused path fs r) (ground (arith, r))
    | inr free ↦ elim (Option-cases (fs path)) [
      | inl e ↦ rw (one-missing path fs free e) (ground (arith, free, e))
      | inr (k, e) ↦
          let (n, made, each) = one_made path fs k free e in rw made (ground (arith, free, e))
    ]
  ]

  abbrev all : Bool → List Text → Modes → Modes × Bool
  all broken paths fs = call_async_all refuses (text (codes "u+x")) broken paths fs

  -- The file is there, and may be changed.
  abbrev pub changeable : Text → Modes → Bool
  changeable path fs = is_some (fs path) && not (refuses path)

  -- The paths before the first one that cannot be changed, or none on a broken chain.
  abbrev pub reached : Bool → List Text → Modes → List Text
  reached true paths fs = []
  reached false [] fs = []
  reached false (path ∷ paths) fs =
      let rest = reached false paths fs in if changeable path fs then path ∷ rest else []

  -- Every path can be changed, and the chain is not broken before the first.
  abbrev pub allowed : Bool → List Text → Modes → Bool
  allowed broken [] fs = true
  allowed broken (path ∷ paths) fs = not broken && (changeable path fs && allowed false paths fs)

  broken-same : (paths : List Text) (fs : Modes) → (all true paths fs).0 ≡ fs
  unfolding call_async_all call_on_chain
  broken-same [] fs = refl
  broken-same (path ∷ paths) fs = broken-same paths fs

  abbrev SameFiles : Modes → Modes → Type 0
  SameFiles fs gs = (p : Text) → is_some (fs p) ≡ is_some (gs p)

  reached-same :
      (paths : List Text) (fs gs : Modes)
      → SameFiles fs gs
      → reached false paths fs ≡ reached false paths gs
  reached-same [] fs gs h = refl
  reached-same (path ∷ paths) fs gs h = rw (h path, reached-same paths fs gs h) refl

  allowed-same :
      (paths : List Text) (fs gs : Modes)
      → SameFiles fs gs
      → allowed false paths fs ≡ allowed false paths gs
  allowed-same [] fs gs h = refl
  allowed-same (path ∷ paths) fs gs h = ground (arith, h path, allowed-same paths fs gs h)

  hit_changeable :
      (path : Text) (fs : Modes) (p : Text)
      → changeable path fs ≡ true
      → ((path == p) && not (refuses p)) ≡ (path == p)
  hit_changeable path fs p ok = ground (arith, ok, text_same_iff path p)

  hit_unchangeable :
      (path : Text) (fs : Modes) (p : Text) (m : ℕ)
      → fs p ≡ some m
      → changeable path fs ≡ false
      → ((path == p) && not (refuses p)) ≡ false
  hit_unchangeable path fs p m e fails = ground (arith, e, fails, text_same_iff path p)

  After-twice :
      (h g : Bool) (m k : ℕ) (o : Option ℕ)
      → ((i : ℕ) → bit i k ≡ ((h && (i == 6)) || bit i m))
      → After g k o
      → After (h || g) m o
  After-twice h g m k o first (n, last, rest) = (n, last, λ i. ground (arith, rest i, first i))

  all-After :
      (paths : List Text) (fs : Modes) (p : Text) (m : ℕ)
      → fs p ≡ some m
      → After (contains (reached false paths fs) p) m ((all false paths fs).0 p)
  unfolding call_async_all call_on_chain contains
  all-After [] fs p m e = same-After _ m (fs p) e refl
  all-After (path ∷ paths) fs p m e =
      let gs = (one path fs).0 in
      let (k, made, first) = one-After path fs p m e in
      elim (Bool-cases (changeable path fs)) [
        | inl ok ↦
            rw (one-ok path fs, ok, reached-same paths fs gs (λ q. sym (one-there path fs q)))
              (After-twice (path == p) _ m k _
                (λ i. first i ∙ ap (λ h. (h && (i == 6)) || bit i m) (hit_changeable path fs p ok))
                (all-After paths gs p k made))
        | inr fails ↦
            rw (one-ok path fs, fails, broken-same paths gs)
              (
                k,
                made,
                λ i.
                    first i
                    ∙ ap (λ h. (h && (i == 6)) || bit i m) (hit_unchangeable path fs p m e fails),
              )
      ]

  all-there :
      (paths : List Text) (broken : Bool) (fs : Modes) → SameFiles (all broken paths fs).0 fs
  unfolding call_async_all call_on_chain
  all-there [] broken fs p = refl
  all-there (path ∷ paths) true fs p = all-there paths true fs p
  all-there (path ∷ paths) false fs p =
      all-there paths (not (one path fs).1) (one path fs).0 p ∙ one-there path fs p

  all-ok :
      (paths : List Text) (broken : Bool) (fs : Modes)
      → (all broken paths fs).1 ≡ allowed broken paths fs
  unfolding call_async_all call_on_chain
  all-ok [] broken fs = refl
  all-ok (path ∷ paths) true fs = refl
  all-ok (path ∷ paths) false fs = elim (Bool-cases (changeable path fs)) [
    | inl ok ↦
        rw (one-ok path fs, ok, all-ok paths false (one path fs).0)
          (allowed-same paths (one path fs).0 fs (one-there path fs))
    | inr fails ↦ rw (one-ok path fs, fails) refl
  ]

  missing : (o : Option ℕ) → is_some o ≡ false → o ≡ none
  missing none h = refl
  missing (some m) h = cc

-- What becomes of a file that is there or not.
abbrev pub Becomes : Bool → Option ℕ → Option ℕ → Type 0
Becomes hit none o = o ≡ none
Becomes hit (some m) o = After hit m o

becomes :
    (hit : Bool) (was o : Option ℕ)
    → is_some o ≡ is_some was
    → ((m : ℕ) → was ≡ some m → After hit m o)
    → Becomes hit was o
becomes hit none none h f = refl
becomes hit none (some n) h f = cc
becomes hit (some m) o h f = f m refl

abbrev Fixed :
    (Text → Bool) → Bool → List Text → Modes → Text → Bool → Modes × CommandResult → Type 0
Fixed refuses broken paths fs p wanted r =
    Becomes (wanted && contains (reached refuses broken paths fs) p) (fs p) (r.0 p)
    × (r.1.rc ≡ (if not wanted || allowed refuses broken paths fs then 0 else 1))

module _ (refuses : Text → Bool) (traceback : Text) (paths : List Text) (fs : Modes) where
  abbrev asked_for : Bool → Bool → Modes × CommandResult
  asked_for broken wanted =
      if wanted
      then remote_chmod refuses traceback (text (codes "u+x")) broken paths fs
      else (fs, command_result)

  told :
      (ok : Bool)
      → (fake_shell (if ok then value (codes "[]") else call_error traceback) false).rc
        ≡ (if ok then 0 else 1)
  unfolding fake_shell
  told true = refl
  told false = refl

  some-After :
      (broken : Bool) (p : Text) (m : ℕ)
      → fs p ≡ some m
      → After (contains (reached refuses broken paths fs) p) m ((all refuses broken paths fs).0 p)
  unfolding contains
  some-After true p m e = rw (broken-same refuses paths fs) (same-After refuses _ m (fs p) e refl)
  some-After false p m e = all-After refuses paths fs p m e

  fixed :
      (broken : Bool) (p : Text) (wanted : Bool)
      → Fixed refuses broken paths fs p wanted (asked_for broken wanted)
  unfolding remote_chmod
  fixed broken p true = (
    becomes _ (fs p) _ (all-there refuses paths broken fs p) (some-After broken p),
    told (all refuses broken paths fs).1
        ∙ ap (λ b. if b then 0 else 1) (all-ok refuses paths broken fs),
  )
  fixed broken p false = (becomes false (fs p) (fs p) refl (λ m e. (m, e, λ i. refl)), refl)

copy_asked :
    (action : Text) (execute : Bool)
    → (execute && not (contains fixup_perms_red_herring action))
      ≡ (execute && not (action == codes "copy"))
unfolding contains
copy_asked action execute =
    ground (arith, text_same_iff action (codes "copy"), text_same_iff (codes "copy") action)

-- `_fixup_perms2`, where it is asked to make files executable and the action is not `copy`, gives the owner of
-- each path before the first that is missing or may not be changed the right to execute, and changes no
-- other digit of any mode; the paths behind the first failure are not changed, since the chain of the
-- calls is pipelined, and none is if the chain was broken before. Its result says 0 if there is no
-- failure, and else 1. For `copy`, or without the request, it changes nothing and says 0. It makes no
-- file.
pub fixup_perms2-Executable :
    (refuses : Text → Bool) (traceback action : Text) (execute broken : Bool) (paths : List Text)
    (fs : Modes) (p : Text)
    → let r = fixup_perms2 refuses traceback action execute broken paths fs in
      let wanted = execute && not (action == codes "copy") in
      Becomes (wanted && contains (reached refuses broken paths fs) p) (fs p) (r.0 p)
      × (r.1.rc ≡ (if not wanted || allowed refuses broken paths fs then 0 else 1))
unfolding fixup_perms2
fixup_perms2-Executable refuses traceback action execute broken paths fs p =
    let wanted = execute && not (action == codes "copy") in
    subst (Fixed refuses broken paths fs p wanted)
      (ap (asked_for refuses traceback paths fs broken) (sym (copy_asked action execute)))
      (fixed refuses traceback paths fs broken p wanted)
