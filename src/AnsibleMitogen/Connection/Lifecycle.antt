-- ===== src/AnsibleMitogen/Connection/Lifecycle.antt =====
-- mitogen-0.2.9/ansible_mitogen/connection.py: how a `Connection` is connected, put back, closed and
-- reset, and the variables of its task.
pub mod Held
mod Tests
use ansible_course.Base.{
  ℕ, zero, suc, Bool, true, false, String, Option, none, some, List, [], ◌∷◌, ◌++◌, ◌==◌,
  string_key, if◌then◌else◌,
}
use ansible_course.Base.Dict.{Dict, get}

abbrev pub Context : Type 0
Context = ℕ

-- The attributes of a `Connection`. The lists are the requests to ContextService that it answered, in
-- order: the contexts that `get` gave, that were `put`, and the stacks, by their length, of `reset`.
pub record Link : Type 0 where
  pub binding : Bool
  pub context : Option Context
  pub login_context : Option Context
  pub init_child_result : Bool
  pub chain : Option Context
  pub gets : List Context
  pub puts : List Context
  pub resets : List ℕ

-- The class attributes: a connection that was not used yet.
pub unconnected : Link
unconnected = record {
  binding = false;
  context = none;
  login_context = none;
  init_child_result = false;
  chain = none;
  gets = [];
  puts = [];
  resets = [];
}

-- What `ContextService.get` answers: `CallError`, a message, or the context with its `via`.
pub data Got : Type 0 where
  call_error message : Got
  connected_to : Context → Option Context → Got

-- The connection afterwards, and whether the method returned.
abbrev pub Ended : Type 0
Ended = Link × Bool

-- `_connect_stack`
pub connect_stack : Bool → Got → Link → Ended
connect_stack become call_error c = (c, false)
connect_stack become message c = (c, false)
connect_stack become (connected_to context via) c = (
  record c {
    context = some context;
    chain = some context;
    login_context = if become then via else some context;
    init_child_result = true;
    gets = c.gets ++ (context ∷ []);
  },
  true,
)

-- `_connect`: the stack of hops, its length or `none` if `_build_stack` raises.
abbrev pub connect_with : Bool → Option ℕ → Got → Link → Option Context → Ended
connect_with become stack got c (some context) = (c, true)
connect_with become none got c none = (c, false)
connect_with become (some n) got c none = connect_stack become got (record c { binding = true })

pub connect : Bool → Option ℕ → Got → Link → Ended
unfolding connect_stack
connect become stack got c = connect_with become stack got c c.context

-- `_put_connection`, where the reset of the chain or the request to the service may raise.
abbrev pub put_with : Bool → Link → Option Context → Ended
put_with fails c none = (c, true)
put_with fails c (some context) = if fails then (c, false) else (
  record c {
    context = none;
    login_context = none;
    init_child_result = false;
    chain = none;
    puts = c.puts ++ (context ∷ []);
  },
  true,
)

pub put_connection : Bool → Link → Ended
put_connection fails c = put_with fails c c.context

-- `on_action_run`
pub on_action_run : Bool → Link → Ended
unfolding put_connection
on_action_run fails c = put_connection fails c

-- `close`
abbrev pub close_binding : Ended → Ended
close_binding (c, true) = (record c { binding = false }, true)
close_binding (c, false) = (c, false)

pub close : Bool → Link → Ended
unfolding put_connection
close fails c = close_binding (put_connection fails c)

-- `reset`, with `stack[:-1]` where there is `become`.
abbrev shorter : Bool → ℕ → ℕ
shorter false n = n
shorter true zero = zero
shorter true (suc n) = n

abbrev pub reset_stack : Bool → Bool → Option ℕ → Ended → Ended
reset_stack become fails stack (c, false) = (c, false)
reset_stack become fails none (c, true) = (c, false)
reset_stack become fails (some n) (c, true) =
    if fails then (c, false) else (record c { resets = c.resets ++ (shorter become n ∷ []) }, true)

pub reset : Option String → Bool → Bool → Bool → Option ℕ → Link → Ended
unfolding close
reset none become put_fails reset_fails stack c = (c, false)
reset (some remote_addr) become put_fails reset_fails stack c =
    reset_stack become reset_fails stack (close put_fails c)

-- `get_task_var`: the task's variables, or with `delegate_to` those of the other host, if it has any.
pub get_task_var {ℓ} :
    {V : Type ℓ} → Option String → Dict String V → Dict String (Dict String V) → String → Option V
get_task_var none task_vars delegated_vars key = get task_vars key
get_task_var (some host) task_vars delegated_vars key = elim (get delegated_vars host) [
  | none ↦ none
  | some vars ↦ get vars key
]
