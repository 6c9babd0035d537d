-- ===== src/AnsibleMitogen/Planner.antt =====
-- mitogen-0.2.9/ansible_mitogen/planner.py: how a module is recognised and where it is run. Ansible's
-- loaders and templating and the mitogen calls are parameters.
pub mod Detection
pub mod Running
mod Tests
use ansible_course.Base.{
  ℕ, zero, suc, Bool, true, false, Text, Option, none, some, List, [], ◌∷◌, ◌++◌, ◌&&◌, ◌||◌, ◌==◌,
  ltb, not, nat_key, text_key, if◌then◌else◌,
}
use ansible_course.Base.Lists.{codes, contains, split}
use ansible_course.Base.Dict.{Dict, get, set_item}
use ansible_course.AnsibleMitogen.Hashbang.{Parsed, no_hashbang, interpreter, strip, parse_hashbang}

-- The classes of `_planners`, in which `ReplacerPlanner` is commented out.
pub data Planner : Type 0 where
  binary new_style json_args want_json old_style : Planner

abbrev pub planners : List Planner
planners = binary ∷ new_style ∷ json_args ∷ want_json ∷ old_style ∷ []

-- `t in s` for bytes: at the front, or further on.
pub starts_with : Text → Text → Bool
starts_with [] s = true
starts_with (_ ∷ _) [] = false
starts_with (c ∷ t) (d ∷ s) = c == d && starts_with t s

pub contains_text : Text → Text → Bool
unfolding starts_with
contains_text t [] = starts_with t []
contains_text t (c ∷ s) = starts_with t (c ∷ s) || contains_text t s

-- What Ansible's `module_common` gives: its test for binaries and its marker of JSON arguments.
pub record Ansible : Type 0 where
  pub is_binary : Text → Bool
  pub replacer_jsonargs : Text

-- The `detect` of each class
pub detect : Ansible → Planner → Text → Bool
detect a binary source = a.is_binary source
detect a new_style source = contains_text (codes "from ansible.module_utils.") source
detect a json_args source = contains_text a.replacer_jsonargs source
detect a want_json source = contains_text (codes "WANT_JSON") source
detect a old_style source = true

-- The loop of `_get_planner`; `none` is the error after it.
pub first_planner : Ansible → List Planner → Text → Option Planner
first_planner a [] source = none
first_planner a (klass ∷ rest) source =
    let more = first_planner a rest source in if detect a klass source then some klass else more

pub get_planner : Ansible → Text → Option Planner
unfolding first_planner
get_planner a source = first_planner a planners source

-- `Invocation`, and what the planner's methods ask of it.
pub record Invocation : Type 0 where
  pub module_name : Text
  pub module_path : Option Text  -- `find_plugin`
  pub module_source : Text
  pub wrap_async : Bool
  pub mitogen_task_isolation : Option Text
  pub task_vars : Dict Text Text
  pub template : Text → Text
  pub builtin_modules : List Text  -- `get_module_map()`
  pub custom_modules : List Text  -- the paths of the module map's custom entries
  pub spawns : Bool  -- `spawn_isolated_child` returns
  pub propagates : Bool  -- the file service's call in `_propagate_deps` returns

-- `NewStylePlanner.ALWAYS_FORK_MODULES`
abbrev pub always_fork_modules : List Text
always_fork_modules = codes "dnf" ∷ codes "firewalld" ∷ []

abbrev is_fork : Option Text → Bool
is_fork none = false
is_fork (some t) = t == codes "fork"

abbrev has_any : List Text → Bool
has_any [] = false
has_any (_ ∷ _) = true

-- `should_fork` of each class
pub should_fork : Planner → Invocation → Bool
should_fork new_style i =
    i.wrap_async
    || (is_fork i.mitogen_task_isolation
        || (contains always_fork_modules i.module_name || has_any i.custom_modules))
should_fork _ i = i.wrap_async

-- `get_push_files` and `get_module_deps`, for the path of the module
pub push_files : Planner → Text → Invocation → List Text
push_files new_style path i = (path ∷ []) ++ i.custom_modules
push_files _ path i = path ∷ []

pub module_deps : Planner → Invocation → List Text
module_deps new_style i = i.builtin_modules
module_deps _ i = []

-- `os.path.basename`
pub basename : Text → Text
basename s = last_part s (split b'/' s)
  where
    last_part : Text → List Text → Text
    last_part t [] = t
    last_part _ (t ∷ ts) = last_part t ts

-- `ScriptPlanner._rewrite_interpreter`
pub rewrite_interpreter : Invocation → Text → Text
unfolding basename
rewrite_interpreter i path =
    elim (get i.task_vars (codes "ansible_" ++ (strip (basename path) ++ codes "_interpreter"))) [
      | none ↦ path
      | some template ↦ i.template template
    ]

-- What `_get_interpreter` answers: none for a class that needs none, or the fragment and whether it
-- is taken for Python; or `AnsibleError`, or `IndexError` for a blank interpreter line.
pub data Interpreter : Type 0 where
  not_needed missing index_error : Interpreter
  fragment : Text → Bool → Interpreter

abbrev with_arg : Text → Option Text → Text
with_arg f none = f
with_arg f (some []) = f
with_arg f (some (c ∷ arg)) = f ++ (codes " " ++ (c ∷ arg))

pub interpreter_of : Invocation → Parsed → Interpreter
interpreter_of i no_hashbang = missing
interpreter_of i Parsed.index_error = index_error
interpreter_of i (interpreter path arg) =
    fragment (with_arg (rewrite_interpreter i path) arg) (starts_with (codes "python") path)

pub get_interpreter : Planner → Invocation → Interpreter
unfolding interpreter_of starts_with
get_interpreter binary i = not_needed
get_interpreter new_style i = not_needed
get_interpreter _ i = interpreter_of i (parse_hashbang i.module_source)

-- Where a call goes: the connection's own context, or a child that is spawned for the task.
pub data Target : Type 0 where
  own child : Target

-- What an invocation asks of the mitogen library, in order.
pub data Event : Type 0 where
  spawn spawn_failed : Event
  propagate : Target → List Text → List Text → Event
  run_module run_module_async : Target → Planner → Interpreter → Event
  shutdown : Event

pub data Outcome : Type 0 where
  called : Outcome
  no_module no_method no_interpreter index_error : Outcome
  call_failed : Outcome  -- a call before the one of the module raised

-- `get_kwargs` raises before the call is made where the interpreter is missing.
abbrev pub call_with : (Interpreter → Event) → Interpreter → List Event × Outcome
call_with call missing = ([], no_interpreter)
call_with call Interpreter.index_error = ([], Outcome.index_error)
call_with call i = (call i ∷ [], called)

abbrev pub around : List Event → List Event → List Event × Outcome → List Event × Outcome
around before after (events, outcome) = (before ++ (events ++ after), outcome)

-- A call, and what follows it if it returns.
abbrev pub behind : Event × Bool → List Event × Outcome → List Event × Outcome
behind (e, true) (events, outcome) = (e ∷ events, outcome)
behind (e, false) _ = (e ∷ [], call_failed)

-- `spawn_isolated_child`, and whether it returned
pub spawn_isolated_child : Invocation → Event × Bool
spawn_isolated_child i = if i.spawns then (spawn, true) else (spawn_failed, false)

-- `_propagate_deps`, and whether it returned
pub propagate_deps : Planner → Text → Invocation → Target → Event × Bool
unfolding push_files module_deps
propagate_deps k path i context =
    (propagate context (push_files k path i) (module_deps k i), i.propagates)

-- `_invoke_async_task`
pub invoke_async_task : Planner → Text → Invocation → Interpreter → List Event × Outcome
unfolding propagate_deps spawn_isolated_child
invoke_async_task k path i int =
    behind (spawn_isolated_child i)
      (behind (propagate_deps k path i child) (call_with (run_module_async child k) int))

-- `_invoke_isolated_task`: its `finally` shuts the child down, and the spawning and the files stand
-- before the `try`
pub invoke_isolated_task : Planner → Text → Invocation → Interpreter → List Event × Outcome
unfolding propagate_deps spawn_isolated_child
invoke_isolated_task k path i int = behind (spawn_isolated_child i) (
    behind (propagate_deps k path i child)
      (around [] (shutdown ∷ []) (call_with (run_module child k) int)))

-- The call in the connection's own context
pub invoke_here : Planner → Text → Invocation → Interpreter → List Event × Outcome
unfolding propagate_deps
invoke_here k path i int = behind (propagate_deps k path i own) (call_with (run_module own k) int)

pub invoke_on : Planner → Text → Invocation → List Event × Outcome
unfolding should_fork get_interpreter invoke_async_task invoke_isolated_task invoke_here
invoke_on k path i =
    if i.wrap_async
    then invoke_async_task k path i (get_interpreter k i)
    else if should_fork k i
    then invoke_isolated_task k path i (get_interpreter k i)
    else invoke_here k path i (get_interpreter k i)

-- `_planner_by_path`
abbrev pub Cache : Type 0
Cache = Dict Text Planner

pub cached : Text → Option Planner → Option Planner → Cache → Option (Planner × Cache)
cached path (some k) fresh cache = some (k, cache)
cached path none none cache = none
cached path none (some k) cache = some (k, set_item cache path k)

abbrev pub planned :
    Text → Invocation → Option (Planner × Cache) → Cache → (List Event × Outcome) × Cache
planned path i none cache = (([], no_method), cache)
planned path i (some (k, cache')) cache = (invoke_on k path i, cache')

pub invoke_path : Ansible → Option Text → Invocation → Cache → (List Event × Outcome) × Cache
unfolding invoke_on cached get_planner
invoke_path a none i cache = (([], no_module), cache)
invoke_path a (some path) i cache =
    planned path i (cached path (get cache path) (get_planner a i.module_source) cache) cache

-- `invoke`
pub invoke : Ansible → Invocation → Cache → (List Event × Outcome) × Cache
unfolding invoke_path
invoke a i cache = invoke_path a i.module_path i cache

-- `s < t` for texts: the first place where they differ decides, and a text is above its beginnings.
unfoldable pub text_lt : Text → Text → Bool
text_lt _ [] = false
text_lt [] (_ ∷ _) = true
text_lt (c ∷ s) (d ∷ t) = ltb c d || (c == d && text_lt s t)

-- `py_modname_from_path`: `fqn` is Ansible's own function where Ansible has one, `none` where it raises
-- `ValueError`, and the versions are compared as texts.
abbrev plain_modname : Text → Text → Text
plain_modname version name =
    if text_lt version (codes "2.7")
    then codes "ansible_module_" ++ name
    else codes "ansible.modules." ++ name

pub py_modname_from_path : Option (Text → Option Text) → Text → Text → Text → Text
unfolding text_lt
py_modname_from_path none version name path = plain_modname version name
py_modname_from_path (some fqn) version name path = elim (fqn path) [
  | some full ↦ full
  | none ↦ plain_modname version name
]
