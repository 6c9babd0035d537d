-- ===== src/AnsibleMitogen/Contexts.antt =====
-- mitogen-0.2.9/ansible_mitogen/services.py: the tables of `ContextService` and the steps that its
-- methods take while they hold the lock.
pub mod References
pub mod Steps
pub mod Recycling
pub mod Reset
pub mod Lookup
pub mod Deps
mod Tests
use ansible_course.Base.{
  ℕ, zero, suc, ◌+◌, ◌-◌, Bool, true, false, String, Option, none, some, List, [], ◌∷◌, ◌++◌, ◌==◌,
  ltb, reverse, nat_key, string_key, if◌then◌else◌,
}
use ansible_course.Base.Lists.{length, contains}
use ansible_course.Base.Dict.{Dict, get, set_item, del_item}

-- A mitogen context, by its id, and a waiting latch, by its identity.
abbrev pub Context : Type 0
Context = ℕ

abbrev pub Latch : Type 0
Latch = ℕ

-- What a latch is given: the response dictionary with this context, or the exception of `_connect`.
pub data Reply : Type 0 where
  response : Context → Reply
  failure : Reply

-- `ContextService.__init__`; `shut` lists the contexts that `Context.shutdown` was called on, and
-- `replies` what the latches were given.
pub record Service : Type 0 where
  pub response_by_key : Dict String Context
  pub latches_by_key : Dict String (List Latch)
  pub refs_by_context : Dict Context ℕ
  pub lru_by_via : Dict Context (List Context)
  pub key_by_context : Dict Context String
  pub via_by_context : Dict Context Context
  pub shut : List Context
  pub replies : List (Latch × Reply)

-- A step leaves its writes in place also when it raises `KeyError`.
pub data Outcome : Type 0 where
  done : Service → Outcome
  key_error : Service → Outcome

-- `put`: nothing is written where the count is 0 or not there.
pub put_count : Context → Option ℕ → Service → Service
put_count context none s = s
put_count context (some zero) s = s
put_count context (some (suc n)) s = record s {
  refs_by_context = set_item s.refs_by_context context n;
}

pub put : Context → Service → Service
unfolding put_count
put context s = put_count context (get s.refs_by_context context) s

-- `_forget_context_unlocked`
pub forget_key : Context → Option String → Service → Service
forget_key context none s = s
forget_key context (some key) s = record s {
  response_by_key = del_item s.response_by_key key;
  latches_by_key = del_item s.latches_by_key key;
  key_by_context = del_item s.key_by_context context;
  refs_by_context = del_item s.refs_by_context context;
  via_by_context = del_item s.via_by_context context;
  lru_by_via = del_item s.lru_by_via context;
}

pub forget : Context → Service → Service
unfolding forget_key
forget context s = forget_key context (get s.key_by_context context) s

-- `_on_context_disconnect`
pub on_disconnect : Context → Service → Service
unfolding forget
on_disconnect context s = forget context s

-- `lru.remove(context)`: the first occurrence.
pub remove : Context → List Context → List Context
remove context [] = []
remove context (c ∷ cs) = let rest = remove context cs in if c == context then cs else c ∷ rest

abbrev appended : Option Context → List Context → List Context
appended none lru = lru
appended (some new_context) lru = lru ++ (new_context ∷ [])

-- The list of a `via` after `context` is shut down: an empty or missing list is left alone.
replace_in : Context → Option Context → List Context → List Context
unfolding remove
replace_in context new_context lru =
    appended new_context (if contains lru context then remove context lru else lru)

pub swap_in : Context → Option Context → Context → Option (List Context) → Service → Service
unfolding replace_in
swap_in context new_context via none s = s
swap_in context new_context via (some []) s = s
swap_in context new_context via (some (c ∷ cs)) s = record s {
  lru_by_via = set_item s.lru_by_via via (replace_in context new_context (c ∷ cs));
}

pub swap_via : Context → Option Context → Option Context → Service → Service
unfolding swap_in
swap_via context new_context none s = s
swap_via context new_context (some via) s = swap_in context new_context via (get s.lru_by_via via) s

-- `_shutdown_unlocked`
pub shutdown : Context → Option Context → Service → Service
unfolding swap_via
shutdown context new_context s = forget context (
    swap_via context new_context (get s.via_by_context context)
      (record s { shut = s.shut ++ (context ∷ []) }))

-- The loop of `_update_lru_unlocked` over the list, the most recent context first.
pub data Search : Type 0 where
  idle : Context → Search
  all_in_use no_count : Search

pub find_idle : Dict Context ℕ → List Context → Search
find_idle refs [] = all_in_use
find_idle refs (c ∷ cs) =
    let rest = find_idle refs cs in
    elim (get refs c) [ none ↦ no_count | some n ↦ if n == 0 then idle c else rest ]

abbrev pub or_nil : Option (List Context) → List Context
or_nil none = []
or_nil (some lru) = lru

pub evict : Context → Search → Service → Outcome
evict new_context (idle context) s = done (shutdown context (some new_context) s)
evict new_context all_in_use s = done s
evict new_context no_count s = key_error s

-- `_update_lru_unlocked`, with `max_interpreters`
pub update_lru : ℕ → Context → Context → Service → Outcome
unfolding evict find_idle
update_lru max_interpreters new_context via s =
    let lru = or_nil (get s.lru_by_via via) in
    let s1 = record s {
      via_by_context = set_item s.via_by_context new_context via;
      lru_by_via = set_item s.lru_by_via via lru;
    } in
    if ltb (length lru) max_interpreters
    then done (record s1 { lru_by_via = set_item s.lru_by_via via (lru ++ (new_context ∷ [])) })
    else evict new_context (find_idle s.refs_by_context (reverse lru)) s1

-- `shutdown_all`, over the contexts that are known when it starts
pub shutdown_each : List Context → Service → Service
unfolding shutdown
shutdown_each [] s = s
shutdown_each (c ∷ cs) s = shutdown_each cs (shutdown c none s)

pub known : Dict Context String → List Context
known [] = []
known ((c, key) ∷ rest) = c ∷ known rest

pub shutdown_all : Service → Service
unfolding shutdown_each known
shutdown_all s = shutdown_each (known s.key_by_context) s

-- The locked part of `_wait_or_start`: the latch is replied to at once, or it waits, and the first
-- to wait starts the connection.
pub data Wait : Type 0 where
  replied : Service → Wait
  waits : Bool → Service → Wait  -- `first`
  raised : Service → Wait

abbrev pub or_none_waiting : Option (List Latch) → List Latch
or_none_waiting none = []
or_none_waiting (some latches) = latches

abbrev pub is_empty : List Latch → Bool
is_empty [] = true
is_empty (_ ∷ _) = false

pub reply_now : Latch → Context → Option ℕ → Service → Wait
reply_now latch context none s = raised s
reply_now latch context (some n) s = replied (record s {
  refs_by_context = set_item s.refs_by_context context (n + 1);
  replies = s.replies ++ ((latch, response context) ∷ []);
})

pub wait_for : String → Latch → Option Context → Service → Wait
unfolding reply_now
wait_for key latch (some context) s = reply_now latch context (get s.refs_by_context context) s
wait_for key latch none s =
    let latches = or_none_waiting (get s.latches_by_key key) in
    waits (is_empty latches)
      (record s { latches_by_key = set_item s.latches_by_key key (latches ++ (latch ∷ [])) })

pub wait_or_start : String → Latch → Service → Wait
unfolding wait_for
wait_or_start key latch s = wait_for key latch (get s.response_by_key key) s

-- The end of `_connect`: the new context is known, with no reference.
pub connected : String → Context → Service → Service
connected key context s = record s {
  key_by_context = set_item s.key_by_context context key;
  refs_by_context = set_item s.refs_by_context context 0;
}

abbrev replies_to : Reply → List Latch → List (Latch × Reply)
replies_to r [] = []
replies_to r (l ∷ ls) = (l, r) ∷ replies_to r ls

-- `_produce_response`
pub produce_for : String → Reply → Option (List Latch) → Service → Outcome
produce_for key reply none s = key_error s
produce_for key reply (some latches) s = done (record s {
  latches_by_key = del_item s.latches_by_key key;
  replies = s.replies ++ replies_to reply latches;
})

pub produce_response : String → Reply → Service → Outcome
unfolding produce_for
produce_response key reply s = produce_for key reply (get s.latches_by_key key) s

-- What `_wait_or_start` writes for a connection that succeeded, with no lock: the response is
-- recorded, then the references of the `count` waiters are added.
pub add_refs : Context → ℕ → Option ℕ → Service → Outcome
add_refs context count none s = key_error s
add_refs context count (some n) s =
    done (record s { refs_by_context = set_item s.refs_by_context context (n + count) })

pub record_response : String → Context → ℕ → Service → Outcome
unfolding add_refs
record_response key context count s =
    add_refs context count (get s.refs_by_context context)
      (record s { response_by_key = set_item s.response_by_key key context })
