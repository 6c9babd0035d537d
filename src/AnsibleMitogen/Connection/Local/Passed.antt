-- ===== src/AnsibleMitogen/Connection/Local/Passed.antt =====
-- mitogen-0.2.9/ansible_mitogen/plugins/connection/mitogen_local.py: the environment of a module that is run
-- locally.
use ansible_course.Base.{
  Text, List, Option, none, some, [], ◌∷◌, ◌==◌, ◌≡◌, refl, ap, ◌∙◌, inl, inr, arith, text_key,
  text_same_iff, Bool-cases, Option-cases, if◌then◌else◌,
}
use ansible_course.Base.Dict.{Dict, get, set_item, del_item, is_some, get-set_item, get-del_item}
use ansible_course.AnsibleMitogen.Connection.Local.{fill, added, deleted, changed, dict_diff}
use ansible_course.AnsibleMitogen.Runner.EnvFile.{Environ, Disk, Watcher, check}
use ansible_course.AnsibleMitogen.Runner.Process.{update, temporary_environment}

abbrev pub or_else {ℓ} : {A : Type ℓ} → Option A → Option A → Option A
or_else none o = o
or_else (some a) o = some a

module _ {V : Type 0} where
  -- No key stands in a dictionary twice.
  abbrev pub Unique : Dict Text V → Type 0
  Unique [] = Unit
  Unique ((key, v) ∷ d) = (get d key ≡ none) × Unique d

  set_item-Unique : (d : Dict Text V) (k : Text) (v : V) → Unique d → Unique (set_item d k v)
  unfolding set_item get
  set_item-Unique [] k v h = (refl, tt)
  set_item-Unique ((j, w) ∷ d) k v (new, h) = elim (Bool-cases (j == k)) [
    | inl e ↦ rw e (new, h)
    | inr e ↦ rw e (
      get-set_item d k v j ∙ ground (arith, e, new, text_same_iff j k, text_same_iff k j),
      set_item-Unique d k v h,
    )
  ]

  fill-Unique :
      (f : Text → Option V) (keys : Dict Text Text) (out : Dict Text V)
      → Unique out
      → Unique (fill f keys out)
  unfolding fill
  fill-Unique f [] out h = h
  fill-Unique f ((key, _) ∷ keys) out h = elim (Option-cases (f key)) [
    | inl e ↦ rw e (fill-Unique f keys out h)
    | inr (v, e) ↦ rw e (fill-Unique f keys (set_item out key v) (set_item-Unique out key v h))
  ]

  -- What a key has after the loop.
  get-fill :
      (f : Text → Option V) (keys : Dict Text Text) (out : Dict Text V) (j : Text)
      → get (fill f keys out) j ≡ or_else (if is_some (get keys j) then f j else none) (get out j)
  unfolding fill get
  get-fill f [] out j = refl
  get-fill f ((key, w) ∷ keys) out j = elim (Option-cases (f key)) [
    | inl e ↦ rw e (get-fill f keys out j ∙ ground (arith, e, text_same_iff key j))
    | inr (v, e) ↦ rw e (
        get-fill f keys (set_item out key v) j
        ∙ ground (arith, e, text_same_iff key j, get-set_item out key v j))
  ]

-- What the environment has for a variable that the dictionary has or has not.
abbrev pub applied : (Option Text → Option Text) → Option (Option Text) → Option Text → Option Text
applied to_text none was = was
applied to_text (some value) was = to_text value

get-temporary_environment :
    (to_text : Option Text → Option Text) (d : Dict Text (Option Text)) (environ : Environ)
    (j : Text)
    → Unique d
    → get (temporary_environment to_text d environ) j ≡ applied to_text (get d j) (get environ j)
unfolding temporary_environment get
get-temporary_environment to_text [] environ j h = refl
get-temporary_environment to_text ((key, value) ∷ d) environ j (new, h) =
    elim (Option-cases (to_text value)) [
      | inl e ↦ rw e (
          get-temporary_environment to_text d (del_item environ key) j h
          ∙ ground (arith, e, new, text_same_iff key j, get-del_item environ key j))
      | inr (v, e) ↦ rw e (
          get-temporary_environment to_text d (set_item environ key v) j h
          ∙ ground (arith, e, new, text_same_iff key j, get-set_item environ key v j))
    ]

update-Unique : (d rest : Dict Text (Option Text)) → Unique d → Unique (update d rest)
unfolding update
update-Unique d [] h = h
update-Unique d ((key, value) ∷ rest) h =
    update-Unique (set_item d key value) rest (set_item-Unique d key value h)

get-update :
    (d rest : Dict Text (Option Text)) (j : Text)
    → Unique rest
    → get (update d rest) j ≡ or_else (get rest j) (get d j)
unfolding update get
get-update d [] j h = refl
get-update d ((key, value) ∷ rest) j (new, h) =
    get-update (set_item d key value) rest j h
    ∙ ground (arith, new, text_same_iff key j, get-set_item d key value j)

-- What `dict_diff` has for a key.
abbrev pub difference : Option Text → Option Text → Option (Option Text)
difference none none = none
difference none (some value) = some (some value)
difference (some was) none = some none
difference (some was) (some value) = if was == value then none else some (some value)

get-dict_diff :
    (old new : Dict Text Text) (j : Text)
    → get (dict_diff old new) j ≡ difference (get old j) (get new j)
unfolding dict_diff get
get-dict_diff old new j =
    get-fill (λ key. changed (get old key) (get new key)) old _ j
    ∙ (ap (or_else _) (
          get-fill (λ key. deleted (get old key) (get new key)) old _ j
          ∙ ap (or_else _) (get-fill (λ key. added (get old key) (get new key)) new [] j))
        ∙ three (get old j) (get new j))
  where
    three :
        (a b : Option Text)
        → or_else (if is_some a then changed a b else none) (
            or_else
              (if is_some a then deleted a b else none)
              (or_else (if is_some b then added a b else none) none))
          ≡ difference a b
    three none none = refl
    three none (some v) = refl
    three (some w) none = refl
    three (some w) (some v) = ground arith

dict_diff-Unique : (old new : Dict Text Text) → Unique (dict_diff old new)
unfolding dict_diff
dict_diff-Unique old new = fill-Unique _ old _ (fill-Unique _ old _ (fill-Unique _ new [] tt))

-- A variable of a module, by what the task has for it, what the worker had at first and has now, and what
-- the environment has that the module is run from: the task's value; else the worker's, if it is another
-- one than at first, or what `to_text` makes of `None` if the worker deleted it; else that environment's.
abbrev pub expected :
    Option Text → Option (Option Text) → Option Text → Option Text → Option Text → Option Text
expected no_text (some (some value)) was now base = some value
expected no_text (some none) was now base = no_text
expected no_text none none none base = base
expected no_text none none (some value) base = some value
expected no_text none (some was) none base = no_text
expected no_text none (some was) (some value) base = if was == value then base else some value

differs :
    (to_text : Option Text → Option Text) (task : Option (Option Text)) (was now base : Option Text)
    → ((value : Text) → to_text (some value) ≡ some value)
    → applied to_text (or_else task (difference was now)) base
      ≡ expected (to_text none) task was now base
differs to_text (some (some value)) was now base h = h value
differs to_text (some none) was now base h = refl
differs to_text none none none base h = refl
differs to_text none none (some v) base h = h v
differs to_text none (some w) none base h = refl
differs to_text none (some w) (some v) base h = ground (arith, h v)

module _ (to_text : Option Text → Option Text) (split : Text → List Text) (pam etc : Disk)
    (pam_watcher etc_watcher : Watcher) where
  -- `_setup_environ`: the two checks of the environment files, then the variables.
  abbrev pub checked : Environ → Environ
  checked environ = (check split etc etc_watcher (check split pam pam_watcher environ).1).1

  -- A module that is run by a local connection is run from the environment that its runner has after the
  -- checks of both environment files, whatever that is. There each variable of the task has the task's
  -- value; each other one that the worker changed since the multiplexer started, or added, has the worker's
  -- value, and one that it deleted has what `to_text` makes of `None`; and the rest are as the checks left
  -- them; if `to_text` leaves texts as they are.
  pub dict_diff-applied :
      (environ : Environ) (original now : Dict Text Text) (env : Dict Text (Option Text)) (j : Text)
      → ((value : Text) → to_text (some value) ≡ some value)
      → Unique env
      → get
          (temporary_environment to_text (update (dict_diff original now) env) (checked environ))
          j
        ≡ expected (to_text none) (get env j) (get original j) (get now j) (get (checked environ) j)
  dict_diff-applied environ original now env j h unique =
      get-temporary_environment to_text (update (dict_diff original now) env) (checked environ) j
        (update-Unique _ env (dict_diff-Unique original now))
      ∙ (ap (λ d. applied to_text d (get (checked environ) j))
            (get-update (dict_diff original now) env j unique
              ∙ ap (or_else (get env j)) (get-dict_diff original now j))
          ∙ differs to_text (get env j) (get original j) (get now j) _ h)
