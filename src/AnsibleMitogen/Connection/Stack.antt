-- ===== src/AnsibleMitogen/Connection/Stack.antt =====
-- mitogen-0.2.9/ansible_mitogen/connection.py: the hops from the controller to a target.
pub mod Seen
pub mod Chain
use Prim.Native.Char.{code}
use ansible_course.Base.{
  ℕ, zero, suc, Bool, true, false, String, Option, none, some, List, [], ◌∷◌, ◌++◌, ◌&&◌, ◌||◌,
  ◌==◌, not, nat_key, string_key, if◌then◌else◌,
}
use ansible_course.Base.Lists.{contains, length}
use ansible_course.Base.Dict.{Dict, get}
use ansible_course.AnsibleMitogen.Transport.{Spec}
use ansible_course.AnsibleMitogen.Transport.Via
use ansible_course.AnsibleMitogen.Connection.{
  Call, via_cycle, unknown_via, no_task_vars, Result, ok, err, and_then, Env,
}
use ansible_course.AnsibleMitogen.Connection.Table.{hop}

-- `s.rpartition(c)`: what stands before and behind the last `c`, or nothing and all of `s`.
last_split : ℕ → String → Option (String × String)
last_split sep String.[] = none
last_split sep (String.◌∷◌ c s) = elim (last_split sep s) [
  | some (before, behind) ↦ some (String.◌∷◌ c before, behind)
  | none ↦ if code c == sep then some ("", s) else none
]

pub rpartition : ℕ → String → String × String
unfolding last_split
rpartition sep s = elim (last_split sep s) [ none ↦ ("", s) | some parts ↦ parts ]

-- `task_vars['hostvars']`
abbrev pub Hosts : Type 0
Hosts = Dict String (Dict String String)

abbrev or_none : String → Option String
or_none s = if s == "" then none else some s

-- `_spec_from_via` and `get_host_vars`
pub via_spec : Env → String → String → String → Option (Dict String String) → Result Spec
via_spec env inventory_name become_method become_user none = err unknown_via
via_spec env inventory_name become_method become_user (some vars) = ok (
    Via.spec (record {
      inventory_name = inventory_name;
      host_vars = vars;
      become_method = or_none become_method;
      become_user = or_none become_user;
      environ = env.environ;
      shlex = env.shlex;
      constants = env.constants;
    }))

pub spec_from_via : Env → Hosts → String → Result Spec
unfolding rpartition via_spec
spec_from_via env [] text = err no_task_vars
spec_from_via env (h ∷ hosts) text =
    let (become, inventory_name) = rpartition b'@' text in
    let (become_method, become_user) = rpartition b':' become in
    via_spec env inventory_name become_method become_user (get (h ∷ hosts) inventory_name)

-- `spec.mitogen_via()`: the next hop back, if there is one.
pub data Behind : Type 0 where
  direct : Behind
  through : Result Spec → Behind

pub behind_text : Env → Hosts → Option String → Behind
unfolding spec_from_via
behind_text env hosts none = direct
behind_text env hosts (some text) =
    if text == "" then direct else through (spec_from_via env hosts text)

pub behind : Env → Hosts → Spec → Behind
unfolding behind_text
behind env hosts spec = behind_text env hosts spec.mitogen_via

same : Option String → Option String → Bool
same none none = true
same (some a) (some b) = a == b
same _ _ = false

-- The hops of one specification, added behind the others.
pub becomes : Env → Spec → Bool
unfolding same
becomes env spec =
    spec.become && (not (same spec.become_user spec.remote_user) || env.become_allow_same_user)

pub add_hops : Env → Spec → List Call → Result (List Call)
unfolding and_then hop becomes
add_hops env spec stack = and_then (hop env spec spec.transport) λ first.
    if becomes env spec
    then and_then (hop env spec spec.become_method)
        (λ second. ok ((stack ++ (first ∷ [])) ++ (second ∷ [])))
    else ok (stack ++ (first ∷ []))

-- `_stack_from_spec`: `none` if the fuel runs out.
abbrev pub with_hops : Env → Spec → Option (Result (List Call)) → Option (Result (List Call))
with_hops env spec none = none
with_hops env spec (some back) = some (and_then back (add_hops env spec))

pub stack_from_spec : Env → Hosts → ℕ → Spec → List Call → List String → Option (Result (List Call))
unfolding and_then behind add_hops
stack_from_spec env hosts zero spec stack seen = none
stack_from_spec env hosts (suc fuel) spec stack seen =
    let back : Option (Result (List Call)) = elim (behind env hosts spec) [
      | direct ↦ some (ok stack)
      | through (err e) ↦ some (err e)
      | through (ok via) ↦
          stack_from_spec env hosts fuel via stack (seen ++ (spec.inventory_name ∷ []))
    ] in
    if contains seen spec.inventory_name then some (err via_cycle) else with_hops env spec back

-- `_build_stack`, with a round for each host and two more.
pub build_stack : Env → Hosts → Spec → Option (Result (List Call))
unfolding stack_from_spec
build_stack env hosts spec = stack_from_spec env hosts (suc (suc (length hosts))) spec [] []
