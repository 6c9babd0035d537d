-- ===== src/AnsibleMitogen/Contexts/Steps.antt =====
-- mitogen-0.2.9/ansible_mitogen/services.py: `ContextService` as workers and the broker interleave
-- its locked steps, and what a request meets.
use ansible_course.Base.{
  ℕ, ◌+◌, false, String, none, some, [], ◌∷◌, ◌++◌, ◌≡◌, ◌≢◌, ◌⊎◌, refl, ap, arith, nat_key,
  nat_same_iff, string_key, Option-cases, inl, inr,
}
use ansible_course.Base.Dict.{get, set_item, get-del_item}
use ansible_course.AnsibleMitogen.Contexts.{
  Context, Latch, Service, replied, waits, Reply, response, put, forget, forget_key, on_disconnect,
  update_lru, shutdown, shutdown_all, known, wait_or_start, wait_for, reply_now, connected,
  produce_response, record_response, or_none_waiting, is_empty,
}
use ansible_course.AnsibleMitogen.Contexts.References.{
  IsConsistent, Agree-known, Agree-count, after, after_wait, raises, put_count-IsConsistent,
  forget-IsConsistent, shutdown-IsConsistent, shutdown_each-IsConsistent, update_lru-IsConsistent,
  wait_for-IsConsistent, produce_for-IsConsistent, record_response-IsConsistent,
}

-- One step of any thread. A new context is in no recorded response; a response is recorded while
-- its context is still known under the key.
pub data Step (max : ℕ) (s : Service) : Service → Type 0 where
  putting : (c : Context) → Step max s (put c s)
  disconnecting : (c : Context) → Step max s (on_disconnect c s)
  updating : (new via : Context) → Step max s (after (update_lru max new via s))
  shutting : Step max s (shutdown_all s)
  resetting : (c : Context) → Step max s (shutdown c none s)
  waiting : (key : String) (latch : Latch) → Step max s (after_wait (wait_or_start key latch s))
  connecting :
      (key : String) (c : Context)
      → ((k : String) → get s.response_by_key k ≢ some c)
      → Step max s (connected key c s)
  producing : (key : String) (r : Reply) → Step max s (after (produce_response key r s))
  recording :
      (key : String) (c : Context) (count : ℕ)
      → get s.key_by_context c ≡ some key
      → raises (record_response key c count s) ≡ false
      → Step max s (after (record_response key c count s))

pub data Reach (max : ℕ) (s : Service) : Service → Type 0 where
  here : Reach max s s
  next : {t u : Service} → Reach max s t → Step max t u → Reach max s u

connected-IsConsistent :
    (key : String) (c : Context) (s : Service)
    → ((k : String) → get s.response_by_key k ≢ some c)
    → IsConsistent s
    → IsConsistent (connected key c s)
unfolding connected
connected-IsConsistent key c s fresh h =
    Agree-count s.response_by_key (set_item s.key_by_context c key) s.refs_by_context
      (Agree-known s.response_by_key s.key_by_context s.refs_by_context h c key fresh) c 0

Step-IsConsistent : {max : ℕ} {s t : Service} → Step max s t → IsConsistent s → IsConsistent t
unfolding put on_disconnect shutdown_all wait_or_start produce_response
Step-IsConsistent {max} {s} (putting c) h = put_count-IsConsistent s h c (get s.refs_by_context c)
Step-IsConsistent {max} {s} (disconnecting c) h = forget-IsConsistent c s h
Step-IsConsistent {max} {s} (updating new via) h = update_lru-IsConsistent max new via s h
Step-IsConsistent {max} {s} shutting h = shutdown_each-IsConsistent (known s.key_by_context) s h
Step-IsConsistent {max} {s} (resetting c) h = shutdown-IsConsistent c none s h
Step-IsConsistent {max} {s} (waiting key latch) h =
    wait_for-IsConsistent key latch (get s.response_by_key key) s h
Step-IsConsistent {max} {s} (connecting key c fresh) h = connected-IsConsistent key c s fresh h
Step-IsConsistent {max} {s} (producing key r) h =
    produce_for-IsConsistent key r (get s.latches_by_key key) s h
Step-IsConsistent {max} {s} (recording key c count e ok) h =
    record_response-IsConsistent key c count s e h ok

Reach-IsConsistent : {max : ℕ} {s t : Service} → Reach max s t → IsConsistent s → IsConsistent t
Reach-IsConsistent here h = h
Reach-IsConsistent (next r st) h = Step-IsConsistent st (Reach-IsConsistent r h)

-- What a request does: a recorded context is replied at once and gains a reference, and else the
-- latch waits behind those that wait for the key, and starts the connection if it is the first.
abbrev pub Served : String → Latch → Service → Type 0
Served key latch s =
    ((c : Context) × (n : ℕ) × (get s.response_by_key key ≡ some c)
      × (get s.refs_by_context c ≡ some n)
      × (wait_or_start key latch s
          ≡ replied (record s {
            refs_by_context = set_item s.refs_by_context c (n + 1);
            replies = s.replies ++ ((latch, response c) ∷ []);
          })))
    ⊎ ((get s.response_by_key key ≡ none)
        × (wait_or_start key latch s
            ≡ waits (is_empty (or_none_waiting (get s.latches_by_key key))) (record s {
              latches_by_key =
                  set_item s.latches_by_key key
                    (or_none_waiting (get s.latches_by_key key) ++ (latch ∷ []));
            })))

none_recorded : (s : Service) → s.response_by_key ≡ [] → IsConsistent s
unfolding get
none_recorded s e key c g = cc (g, ap (λ d. get d key) e)

served : (key : String) (latch : Latch) (s : Service) → IsConsistent s → Served key latch s
unfolding wait_or_start
served key latch s h = elim (Option-cases (get s.response_by_key key)) [
  | inl e ↦ inr (e, rw (e, wait_for) refl)
  | inr (c, e) ↦ elim (Option-cases (get s.refs_by_context c)) [
    | inl f ↦ cc (f, (h key c e).1)
    | inr (n, f) ↦ inl (c, n, e, f, rw (e, wait_for) (rw (f, reply_now) refl))
  ]
]

-- From a service with no response recorded, through any steps in any order, in which a new context is
-- in no recorded response and a response is recorded while its context is known and counted:
-- recorded responses, known contexts and reference counts agree, and so a request never raises
-- `KeyError`: it is replied the recorded context, which gains a reference, or waits behind the others
-- for its key, as the one that starts the connection exactly if no other waits.
pub request-Served :
    {max : ℕ} {s t : Service}
    → s.response_by_key ≡ []
    → Reach max s t
    → (key : String) (latch : Latch) → IsConsistent t × Served key latch t
unfolding wait_or_start
request-Served {max} {s} {t} e r key latch =
    let h = Reach-IsConsistent r (none_recorded s e) in (h, served key latch t h)

pub forget_uncounts :
    (key : String) (c : Context) (s : Service)
    → get s.key_by_context c ≡ some key
    → get (forget c s).refs_by_context c ≡ none
unfolding forget
forget_uncounts key c s e =
    rw (e, forget_key) (ground (arith, get-del_item s.refs_by_context c c, nat_same_iff c c))
