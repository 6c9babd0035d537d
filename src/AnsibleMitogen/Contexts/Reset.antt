-- ===== src/AnsibleMitogen/Contexts/Reset.antt =====
-- mitogen-0.2.9/ansible_mitogen/services.py: `reset`, which gives up the connection of a stack.
use mathlib.Core.Path.{subst}
use ansible_course.Base.{
  Bool, true, false, String, Option, none, some, List, [], ◌∷◌, ◌≡◌, ◌≢◌, ◌⊎◌, refl, sym, ap, arith,
  if◌then◌else◌, nat_key, nat_same_iff, string_key, Option-cases, inl, inr,
}
use ansible_course.Base.Dict.{get, get-del_item}
use ansible_course.AnsibleMitogen.Contexts.{Context, Service, forget, forget_key, shutdown}
use ansible_course.AnsibleMitogen.Contexts.References.{IsConsistent, shutdown-IsConsistent}

-- What `reset` answers, or that it raises since the context did not disconnect in time.
pub data ResetResult : Type 0 where
  answers : Bool → ResetResult
  timeout_error : ResetResult

module _ {ℓ} {Spec : Type ℓ} (key_from_dict : Option Context → Spec → String) where
  -- The loop over the stack, a first hop and the others: the context of the last, if each is recorded.
  pub walk : Option Context → Spec → List Spec → Service → Option Context
  walk via spec [] s = get s.response_by_key (key_from_dict via spec)
  walk via spec (hop ∷ stack) s = elim (get s.response_by_key (key_from_dict via spec)) [
    | none ↦ none
    | some context ↦ walk (some context) hop stack s
  ]

  -- What follows the loop: `_shutdown_unlocked`, and then the wait for the context to disconnect, which
  -- raises if that takes more than 30 seconds.
  pub reset_at : (Context → Bool) → Option Context → Service → ResetResult × Service
  reset_at disconnects none s = (answers false, s)
  reset_at disconnects (some context) s =
      (if disconnects context then answers true else timeout_error, shutdown context none s)

  pub reset : (Context → Bool) → Spec → List Spec → Service → ResetResult × Service
  unfolding walk reset_at
  reset disconnects spec stack s = reset_at disconnects (walk none spec stack s) s

forgotten_key :
    (c : Context) (key : Option String) (s : Service)
    → get s.key_by_context c ≡ key
    → get (forget_key c key s).key_by_context c ≡ none
unfolding forget_key
forgotten_key c none s e = e
forgotten_key c (some key) s e = ground (arith, get-del_item s.key_by_context c c, nat_same_iff c c)

forgotten : (c : Context) (s : Service) → get (forget c s).key_by_context c ≡ none
unfolding forget
forgotten c s = forgotten_key c (get s.key_by_context c) s refl

shutdown_drops :
    (c : Context) (s : Service)
    → IsConsistent s
    → (key : String) → get (shutdown c none s).response_by_key key ≢ some c
unfolding shutdown
shutdown_drops c s h key e = cc ((shutdown-IsConsistent c none s h key c e).0, forgotten c _)

abbrev Dropped : Context → Service → Type 0
Dropped c s = ((key : String) → get s.response_by_key key ≢ some c) × IsConsistent s

-- Where recorded responses, known contexts and counts agree, `reset` finds no connection for some hop
-- of the stack, answers `False` and changes nothing; or it shuts down the context that is recorded for
-- the last hop, and answers `True` if that disconnects in time and else raises; and then, whether or not
-- it raises, no request, for any key, is replied that context, and the tables still agree.
pub reset_drops {ℓ} :
    {Spec : Type ℓ} (key_from_dict : Option Context → Spec → String) (disconnects : Context → Bool)
    (spec : Spec) (stack : List Spec) (s : Service)
    → IsConsistent s
    → let r = reset key_from_dict disconnects spec stack s in
      ((walk key_from_dict none spec stack s ≡ none) × (r ≡ (answers false, s)))
      ⊎ ((c : Context) × (walk key_from_dict none spec stack s ≡ some c)
          × (r ≡ (if disconnects c then answers true else timeout_error, shutdown c none s))
          × ((key : String) → get r.1.response_by_key key ≢ some c)
          × IsConsistent r.1)
unfolding reset reset_at
reset_drops key_from_dict disconnects spec stack s h =
    elim (Option-cases (walk key_from_dict none spec stack s)) [
      | inl e ↦ inl (e, ap (λ w. reset_at key_from_dict disconnects w s) e)
      | inr (c, e) ↦
          let r = ap (λ w. reset_at key_from_dict disconnects w s) e in
          let dropped : Dropped c (shutdown c none s) =
            (shutdown_drops c s h, shutdown-IsConsistent c none s h) in
          let (unreplied, agrees) = subst (Dropped c) (sym (ap (λ x. x.1) r)) dropped in
          inr (c, e, r, unreplied, agrees)
    ]
