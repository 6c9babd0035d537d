-- ===== src/AnsibleMitogen/Workers/Bound.antt =====
-- mitogen-0.2.9/ansible_mitogen/process.py: the multiplexer behind a binding.
use ansible_course.Base.{
  ℕ, Bool, true, false, String, Option, none, some, List, ◌≡◌, ◌⊎◌, refl, sym, ap, ◌∙◌, string_key,
  Bool-cases, inl, inr, arith,
}
use text.Mathlib.TextEquality.{eq_iff}
use ansible_course.AnsibleMitogen.Workers.{
  Worker, unbound, listener_for_name, reconnect, same_listener, bind_at, get_binding,
  on_binding_close,
}

module _ (hash : String → ℕ) (path : String) (paths : List String) where
  -- The calls of a worker's bindings, however the connections to the listeners turn out.
  pub data Reach : Worker → Type 0 where
    start : Reach unbound
    binding :
        {w : Worker}
        → Reach w
        → (connects : Bool) (name : String) → Reach (get_binding hash path paths connects name w).0
    unbinding : {w : Worker} → Reach w → Reach (on_binding_close w)

-- A worker is connected to its listener, or to none.
abbrev pub Knows : Worker → Type 0
Knows w = (w.parent ≡ w.listener_path) ⊎ (w.parent ≡ none)

bind-Knows :
    (connects : Bool) (path : String) (w : Worker) → Knows w → Knows (bind_at connects path w).0
unfolding reconnect
bind-Knows connects path w h = elim (Bool-cases (same_listener w.listener_path path)) [
  | inl t ↦ rw t h
  | inr n ↦ rw n (reconnected connects)
]
  where
    reconnected : (c : Bool) → Knows (reconnect c path (record w { broker = true })).0
    reconnected true = inl refl
    reconnected false = inr refl

unbound_Knows : (w : Worker) → Knows w → Knows (on_binding_close w)
unfolding on_binding_close unbound
unbound_Knows w h = elim (Bool-cases w.broker) [ inl t ↦ rw t (inl refl) | inr n ↦ rw n h ]

reach-Knows :
    (hash : String → ℕ) (path : String) (paths : List String) {w : Worker}
    → Reach hash path paths w
    → Knows w
unfolding unbound get_binding
reach-Knows hash path paths start = inl refl
reach-Knows hash path paths (binding {w} r connects name) =
    bind-Knows connects (listener_for_name hash path paths name) w (reach-Knows hash path paths r)
reach-Knows hash path paths (unbinding {w} r) = unbound_Knows w (reach-Knows hash path paths r)

same_listener_path :
    (listener : Option String) (path : String)
    → same_listener listener path ≡ true
    → listener ≡ some path
same_listener_path none path e = ground (arith, e)
same_listener_path (some l) path e = ap (λ p. some p) (sym ((eq_iff path l).0 e))

-- What a binding for a path comes to: it raises since there is no connection; or it is one of a worker
-- that is connected to the path; or of a worker whose last attempt to connect failed, and which takes
-- the path of the connection before that one for its own: it is connected to nothing.
abbrev pub Binds : Bool → String → Worker → Worker × Bool → Type 0
Binds connects path w (after, returned) =
    ((returned ≡ false) × (connects ≡ false))
    ⊎ ((returned ≡ true) × (after.parent ≡ some path))
    ⊎ ((returned ≡ true)
        × (w.listener_path ≡ some path)
        × (w.parent ≡ none)
        × (after.parent ≡ none))

bind-Binds :
    (connects : Bool) (path : String) (w : Worker)
    → Knows w
    → Binds connects path w (bind_at connects path w)
unfolding reconnect
bind-Binds connects path w h = elim (Bool-cases (same_listener w.listener_path path)) [
  | inl t ↦ rw t (connected h (same_listener_path w.listener_path path t))
  | inr n ↦ rw n (reconnected connects)
]
  where
    connected :
        Knows w
        → w.listener_path ≡ some path
        → Binds connects path w (record w { broker = true }, true)
    connected (inl e) l = inr (inl (refl, e ∙ l))
    connected (inr e) l = inr (inr (refl, l, e, e))

    reconnected : (c : Bool) → Binds c path w (reconnect c path (record w { broker = true }))
    reconnected true = inr (inl (refl, refl))
    reconnected false = inl (refl, refl)

-- After any bindings of a worker, a binding for a host is one of a worker that is connected to the
-- host's multiplexer, or it raises since it cannot connect; unless the last attempt to connect failed
-- and the host is one of the multiplexer before: then it is returned with no connection.
pub get_binding-Binds :
    (hash : String → ℕ) (path : String) (paths : List String) (connects : Bool) (name : String)
    {w : Worker}
    → Reach hash path paths w
    → Binds connects
        (listener_for_name hash path paths name)
        w
        (get_binding hash path paths connects name w)
unfolding get_binding
get_binding-Binds hash path paths connects name {w} r =
    bind-Binds connects (listener_for_name hash path paths name) w (reach-Knows hash path paths r)
