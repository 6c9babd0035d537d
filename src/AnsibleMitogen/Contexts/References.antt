-- ===== src/AnsibleMitogen/Contexts/References.antt =====
-- mitogen-0.2.9/ansible_mitogen/services.py: recorded responses and reference counts of
-- `ContextService` agree through every step, and what a request may rely on.
use text.Mathlib.TextEquality.{eq_iff}
use ansible_course.Base.{
  ℕ, zero, suc, ◌+◌, Bool, true, false, String, Option, none, some, List, [], ◌∷◌, ◌++◌, ◌==◌, ◌≡◌,
  ◌≢◌, refl, ltb, reverse, arith, nat_key, nat_same_iff, string_key, Bool-cases, inl, inr,
}
use ansible_course.Base.Lists.{length}
use ansible_course.Base.Dict.{Dict, is_some, get, set_item, del_item, get-set_item, get-del_item}
use ansible_course.AnsibleMitogen.Contexts.{
  Context, Latch, Service, Outcome, done, key_error, Wait, replied, waits, raised, Reply, put_count,
  forget, forget_key, swap_in, swap_via, or_nil, reply_now, shutdown, update_lru, evict, find_idle,
  Search, idle, all_in_use, no_count, shutdown_each, wait_for, produce_for, add_refs,
  record_response,
}

-- A recorded response's context is known under that key, and is counted.
abbrev pub Agree : Dict String Context → Dict Context String → Dict Context ℕ → Type 0
Agree responses keys refs =
    (key : String) (c : Context)
    → get responses key ≡ some c
    → (get keys c ≡ some key) × (is_some (get refs c) ≡ true)

abbrev pub IsConsistent : Service → Type 0
IsConsistent s = Agree s.response_by_key s.key_by_context s.refs_by_context

module _ (responses : Dict String Context) (keys : Dict Context String) (refs : Dict Context ℕ)
    (agree : Agree responses keys refs) (c : Context) where
  pub Agree-count : (n : ℕ) → Agree responses keys (set_item refs c n)
  Agree-count n k d e = ground (arith, agree k d e, get-set_item refs c n d, nat_same_iff c d)

  -- A context of no recorded response can be given any key.
  pub Agree-known :
      (key : String)
      → ((k : String) → get responses k ≢ some c)
      → Agree responses (set_item keys c key) refs
  Agree-known key fresh k d e = elim (Bool-cases (c == d)) [
    | inl same ↦ absurd (fresh k (ground (arith, e, nat_same_iff c d, same)))
    | inr other ↦ ground (arith, agree k d e, get-set_item keys c key d, other)
  ]

  Agree-forget :
      (key : String)
      → get keys c ≡ some key
      → Agree (del_item responses key) (del_item keys c) (del_item refs c)
  Agree-forget key e k d r = ground (
    arith,
    agree k d,
    eq_iff key k,
    nat_same_iff c d,
    get-del_item responses key k,
    get-del_item keys c d,
    get-del_item refs c d,
  )

  Agree-record :
      (key : String) (m : ℕ)
      → get keys c ≡ some key
      → Agree (set_item responses key c) keys (set_item refs c m)
  Agree-record key m e k d r = ground (
    arith,
    agree k d,
    eq_iff key k,
    nat_same_iff c d,
    get-set_item responses key c k,
    get-set_item refs c m d,
  )

module _ (s : Service) (h : IsConsistent s) where
  pub put_count-IsConsistent : (c : Context) (n : Option ℕ) → IsConsistent (put_count c n s)
  unfolding put_count
  put_count-IsConsistent c none = h
  put_count-IsConsistent c (some zero) = h
  put_count-IsConsistent c (some (suc n)) =
      Agree-count s.response_by_key s.key_by_context s.refs_by_context h c n

  forget_key-IsConsistent :
      (c : Context) (key : Option String)
      → get s.key_by_context c ≡ key
      → IsConsistent (forget_key c key s)
  unfolding forget_key
  forget_key-IsConsistent c none e = h
  forget_key-IsConsistent c (some key) e =
      Agree-forget s.response_by_key s.key_by_context s.refs_by_context h c key e

  swap_in-IsConsistent :
      (c : Context) (new : Option Context) (via : Context) (lru : Option (List Context))
      → IsConsistent (swap_in c new via lru s)
  unfolding swap_in
  swap_in-IsConsistent c new via none = h
  swap_in-IsConsistent c new via (some []) = h
  swap_in-IsConsistent c new via (some (d ∷ ds)) = h

  swap_via-IsConsistent :
      (c : Context) (new via : Option Context) → IsConsistent (swap_via c new via s)
  unfolding swap_via
  swap_via-IsConsistent c new none = h
  swap_via-IsConsistent c new (some via) = swap_in-IsConsistent c new via (get s.lru_by_via via)

pub forget-IsConsistent : (c : Context) (s : Service) → IsConsistent s → IsConsistent (forget c s)
unfolding forget
forget-IsConsistent c s h = forget_key-IsConsistent s h c (get s.key_by_context c) refl

pub shutdown-IsConsistent :
    (c : Context) (new : Option Context) (s : Service)
    → IsConsistent s
    → IsConsistent (shutdown c new s)
unfolding shutdown
shutdown-IsConsistent c new s h =
    let s1 = record s { shut = s.shut ++ (c ∷ []) } in
    forget-IsConsistent c (swap_via c new (get s.via_by_context c) s1)
      (swap_via-IsConsistent s1 h c new (get s.via_by_context c))

pub shutdown_each-IsConsistent :
    (cs : List Context) (s : Service) → IsConsistent s → IsConsistent (shutdown_each cs s)
unfolding shutdown_each
shutdown_each-IsConsistent [] s h = h
shutdown_each-IsConsistent (c ∷ cs) s h =
    shutdown_each-IsConsistent cs (shutdown c none s) (shutdown-IsConsistent c none s h)

-- The service after a step, whether it raised or not.
abbrev pub after : Outcome → Service
after (done s) = s
after (key_error s) = s

abbrev pub after_wait : Wait → Service
after_wait (replied s) = s
after_wait (waits first s) = s
after_wait (raised s) = s

evict-IsConsistent :
    (new : Context) (found : Search) (s : Service)
    → IsConsistent s
    → IsConsistent (after (evict new found s))
unfolding evict
evict-IsConsistent new (idle c) s h = shutdown-IsConsistent c (some new) s h
evict-IsConsistent new all_in_use s h = h
evict-IsConsistent new no_count s h = h

pub update_lru-IsConsistent :
    (max : ℕ) (new via : Context) (s : Service)
    → IsConsistent s
    → IsConsistent (after (update_lru max new via s))
unfolding update_lru
update_lru-IsConsistent max new via s h =
    elim (Bool-cases (ltb (length (or_nil (get s.lru_by_via via))) max)) [
      | inl room ↦ rw room h
      | inr full ↦ rw full (
          evict-IsConsistent new
            (find_idle s.refs_by_context (reverse (or_nil (get s.lru_by_via via)))) _ h)
    ]

reply_now-IsConsistent :
    (latch : Latch) (c : Context) (n : Option ℕ) (s : Service)
    → IsConsistent s
    → IsConsistent (after_wait (reply_now latch c n s))
unfolding reply_now
reply_now-IsConsistent latch c none s h = h
reply_now-IsConsistent latch c (some n) s h =
    Agree-count s.response_by_key s.key_by_context s.refs_by_context h c (n + 1)

pub wait_for-IsConsistent :
    (key : String) (latch : Latch) (c : Option Context) (s : Service)
    → IsConsistent s
    → IsConsistent (after_wait (wait_for key latch c s))
unfolding wait_for
wait_for-IsConsistent key latch none s h = h
wait_for-IsConsistent key latch (some c) s h =
    reply_now-IsConsistent latch c (get s.refs_by_context c) s h

pub produce_for-IsConsistent :
    (key : String) (reply : Reply) (latches : Option (List Latch)) (s : Service)
    → IsConsistent s
    → IsConsistent (after (produce_for key reply latches s))
unfolding produce_for
produce_for-IsConsistent key reply none s h = h
produce_for-IsConsistent key reply (some latches) s h = h

abbrev pub raises : Outcome → Bool
raises (done s) = false
raises (key_error s) = true

add_refs-IsConsistent :
    (key : String) (c : Context) (count : ℕ) (n : Option ℕ) (s : Service)
    → get s.key_by_context c ≡ some key
    → IsConsistent s
    → let r =
        add_refs c count n (record s { response_by_key = set_item s.response_by_key key c }) in
      raises r ≡ false → IsConsistent (after r)
unfolding add_refs
add_refs-IsConsistent key c count none s e h r = cc
add_refs-IsConsistent key c count (some n) s e h r =
    Agree-record s.response_by_key s.key_by_context s.refs_by_context h c key (n + count) e

pub record_response-IsConsistent :
    (key : String) (c : Context) (count : ℕ) (s : Service)
    → get s.key_by_context c ≡ some key
    → IsConsistent s
    → raises (record_response key c count s) ≡ false
    → IsConsistent (after (record_response key c count s))
unfolding record_response
record_response-IsConsistent key c count s e h r =
    add_refs-IsConsistent key c count (get s.refs_by_context c) s e h r
