-- ===== src/AnsibleMitogen/Connection/Lifecycle/Held.antt =====
-- mitogen-0.2.9/ansible_mitogen/connection.py: the references that a connection holds.
use ansible_course.Base.{
  ℕ, Bool, true, false, String, Option, none, some, List, [], ◌∷◌, ◌++◌, ◌≡◌, refl, sym, ap, ◌∙◌,
}
use mathlib.Core.List.{append-nil}
use ansible_course.AnsibleMitogen.Connection.Lifecycle.{
  Context, Link, Got, call_error, message, connected_to, Ended, connect_stack, connect_with,
  connect, put_with, put_connection, on_action_run, close_binding, close, reset_stack, reset,
  unconnected,
}

-- One call of a method, however the calls that it makes come out.
pub data Step (c : Link) : Link → Type 0 where
  connecting :
      (become : Bool) (stack : Option ℕ) (got : Got) → Step c (connect become stack got c).0
  starting : (fails : Bool) → Step c (on_action_run fails c).0
  closing : (fails : Bool) → Step c (close fails c).0
  resetting :
      (addr : Option String) (become put_fails reset_fails : Bool) (stack : Option ℕ)
      → Step c (reset addr become put_fails reset_fails stack c).0

pub data Reach (c : Link) : Link → Type 0 where
  here : Reach c c
  next : {d e : Link} → Reach c d → Step d e → Reach c e

abbrev pub held : Option Context → List Context
held none = []
held (some context) = context ∷ []

abbrev pub is_there : Option Context → Bool
is_there none = false
is_there (some context) = true

-- All contexts that were got have been put but the one that is held, whose chain and result of
-- `init_child` are there with it.
abbrev pub Holds : Link → Type 0
Holds c =
    (c.gets ≡ c.puts ++ held c.context)
    × (c.chain ≡ c.context)
    × (c.init_child_result ≡ is_there c.context)

connect-Holds :
    (become : Bool) (stack : Option ℕ) (got : Got) (c : Link) (context : Option Context)
    → c.context ≡ context
    → Holds c
    → Holds (connect_with become stack got c context).0
unfolding connect_stack
connect-Holds become stack got c (some context) e h = h
connect-Holds become none got c none e h = h
connect-Holds become (some n) call_error c none e h = h
connect-Holds become (some n) message c none e h = h
connect-Holds become (some n) (connected_to context via) c none e (g, chain, result) = (
  ap (λ l. l ++ (context ∷ [])) (g ∙ ap (λ o. c.puts ++ held o) e ∙ append-nil c.puts),
  refl,
  refl,
)

put-Holds :
    (fails : Bool) (c : Link) (context : Option Context)
    → c.context ≡ context
    → Holds c
    → Holds (put_with fails c context).0
put-Holds fails c none e h = h
put-Holds true c (some context) e h = h
put-Holds false c (some context) e (g, chain, result) =
    (g ∙ ap (λ o. c.puts ++ held o) e ∙ sym (append-nil (c.puts ++ (context ∷ []))), refl, refl)

close-Holds : (e : Ended) → Holds e.0 → Holds (close_binding e).0
close-Holds (c, true) h = h
close-Holds (c, false) h = h

reset-Holds :
    (become fails : Bool) (stack : Option ℕ) (e : Ended)
    → Holds e.0
    → Holds (reset_stack become fails stack e).0
reset-Holds become fails stack (c, false) h = h
reset-Holds become fails none (c, true) h = h
reset-Holds become true (some n) (c, true) h = h
reset-Holds become false (some n) (c, true) h = h

closed-Holds : (fails : Bool) (c : Link) → Holds c → Holds (close fails c).0
unfolding close put_connection
closed-Holds fails c h =
    close-Holds (put_with fails c c.context) (put-Holds fails c c.context refl h)

kept-Holds : {c d : Link} → Step c d → Holds c → Holds d
unfolding connect on_action_run put_connection reset
kept-Holds {c} (connecting become stack got) h = connect-Holds become stack got c c.context refl h
kept-Holds {c} (starting fails) h = put-Holds fails c c.context refl h
kept-Holds {c} (closing fails) h = closed-Holds fails c h
kept-Holds {c} (resetting none become put_fails reset_fails stack) h = h
kept-Holds {c} (resetting (some addr) become put_fails reset_fails stack) h =
    reset-Holds become reset_fails stack (close put_fails c) (closed-Holds put_fails c h)

reach-Holds : {c d : Link} → Holds c → Reach c d → Holds d
reach-Holds h here = h
reach-Holds h (next r s) = kept-Holds s (reach-Holds h r)

closed_context :
    (c : Link) (context : Option Context)
    → c.context ≡ context
    → (close_binding (put_with false c context)).0.context ≡ none
closed_context c none e = e
closed_context c (some context) e = refl

-- After any calls of its methods, in any order, whatever the service answers and whichever calls
-- raise, a connection has put each context that it got once, in the order in which it got them, but
-- the one that it has, and its chain and the result of `init_child` are there exactly with that
-- one. A `close` in which no call raises leaves none that was not put.
pub methods-Holds :
    {c : Link}
    → Reach unconnected c
    → Holds c × (let closed = (close false c).0 in closed.gets ≡ closed.puts)
unfolding close put_connection unconnected
methods-Holds {c} r =
    let h = reach-Holds (refl, refl, refl) r in
    let (g, chain, result) = closed-Holds false c h in
    (
      h,
      g
          ∙ ap (λ o. (close false c).0.puts ++ held o) (closed_context c c.context refl)
          ∙ append-nil _,
    )
