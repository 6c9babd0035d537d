-- ===== src/AnsibleMitogen/Planner/Running.antt =====
-- mitogen-0.2.9/ansible_mitogen/planner.py: in which order an invocation uses its contexts.
use ansible_course.Base.{
  Bool, true, false, not, ◌&&◌, Text, Option, none, some, List, [], ◌∷◌, ◌≡◌, refl, if◌then◌else◌,
  text_key, nat_key,
}
use ansible_course.Base.Dict.{get, get-set_self}
use ansible_course.AnsibleMitogen.Hashbang.{interpreter}
use ansible_course.AnsibleMitogen.Planner.{
  Ansible, Planner, Invocation, Target, own, child, Event, spawn, propagate, run_module,
  run_module_async, shutdown, Outcome, no_method, no_module, Interpreter, spawn_failed, call_with,
  around, behind, spawn_isolated_child, push_files, module_deps, not_needed, missing, fragment,
  should_fork, get_interpreter, get_planner, invoke_on, invoke_path, invoke, cached, Cache,
  starts_with, interpreter_of, planned, propagate_deps, invoke_async_task, invoke_isolated_task,
  invoke_here,
}

-- How far the contexts of an invocation are: nothing done, the child spawned, files sent to a
-- context, the module run there, and the child shut down.
pub data Stage : Type 0 where
  start spawned gone : Stage
  sent ran : Target → Stage

-- What is allowed next: files only to a context that is there, a run only where the files are, a
-- shutdown only of a child that was sent files, and nothing twice.
abbrev pub step : Stage → Event → Option Stage
step start spawn = some spawned
step start spawn_failed = some start
step start (propagate own _ _) = some (sent own)
step spawned (propagate child _ _) = some (sent child)
step (sent own) (run_module own _ _) = some (ran own)
step (sent child) (run_module child _ _) = some (ran child)
step (sent child) (run_module_async child _ _) = some (ran child)
step (sent child) shutdown = some gone
step (ran child) shutdown = some gone
step _ _ = none

abbrev pub steps : Option Stage → List Event → Option Stage
steps s [] = s
steps none (_ ∷ _) = none
steps (some s) (e ∷ es) = steps (step s e) es

-- A child is left behind in the stages from its spawning on to its shutdown.
abbrev pub leaves_child : Stage → Bool
leaves_child start = false
leaves_child spawned = true
leaves_child gone = false
leaves_child (sent own) = false
leaves_child (sent child) = true
leaves_child (ran own) = false
leaves_child (ran child) = true

abbrev pub in_own : Stage → Bool
in_own (sent own) = true
in_own (ran own) = true
in_own _ = false

-- What a stage tells: that the module was run or its child shut down.
abbrev pub is_past_files : Stage → Bool
is_past_files (ran _) = true
is_past_files gone = true
is_past_files _ = false

-- The events are allowed one after the other; where the files could be sent a child is left only by an
-- asynchronous task, and where they could not be sent nothing is called after it; and an asynchronous
-- task has not used the connection's own context.
abbrev pub Ends : Bool → Bool → List Event × Outcome → Type 0
Ends wrap_async propagates (events, outcome) =
    (s : Stage) × (steps (some start) events ≡ some s)
    × ((leaves_child s && (propagates && not wrap_async)) ≡ false)
    × ((is_past_files s && not propagates) ≡ false)
    × ((in_own s && wrap_async) ≡ false)

abbrev pub Orderly : Invocation → List Event × Outcome → Type 0
Orderly i r = Ends i.wrap_async i.propagates r

abbrev spawn_of : Bool → Event × Bool
spawn_of spawns = if spawns then (spawn, true) else (spawn_failed, false)

module _ (k : Planner) (files modules : List Text) where
  async-Ends :
      (spawns propagates : Bool) (int : Interpreter)
      → Ends true propagates (
          behind (spawn_of spawns) (
            behind
              (propagate child files modules, propagates)
              (call_with (run_module_async child k) int)))
  async-Ends false p int = (start, refl, refl, refl, refl)
  async-Ends true false int = (sent child, refl, refl, refl, refl)
  async-Ends true true not_needed = (ran child, refl, refl, refl, refl)
  async-Ends true true missing = (sent child, refl, refl, refl, refl)
  async-Ends true true Interpreter.index_error = (sent child, refl, refl, refl, refl)
  async-Ends true true (fragment f py) = (ran child, refl, refl, refl, refl)

  isolated-Ends :
      (spawns propagates : Bool) (int : Interpreter)
      → Ends false propagates (
          behind (spawn_of spawns) (
            behind
              (propagate child files modules, propagates)
              (around [] (shutdown ∷ []) (call_with (run_module child k) int))))
  isolated-Ends false p int = (start, refl, refl, refl, refl)
  isolated-Ends true false int = (sent child, refl, refl, refl, refl)
  isolated-Ends true true not_needed = (gone, refl, refl, refl, refl)
  isolated-Ends true true missing = (gone, refl, refl, refl, refl)
  isolated-Ends true true Interpreter.index_error = (gone, refl, refl, refl, refl)
  isolated-Ends true true (fragment f py) = (gone, refl, refl, refl, refl)

  here-Ends :
      (propagates : Bool) (int : Interpreter)
      → Ends false propagates
          (behind (propagate own files modules, propagates) (call_with (run_module own k) int))
  here-Ends false int = (sent own, refl, refl, refl, refl)
  here-Ends true not_needed = (ran own, refl, refl, refl, refl)
  here-Ends true missing = (sent own, refl, refl, refl, refl)
  here-Ends true Interpreter.index_error = (sent own, refl, refl, refl, refl)
  here-Ends true (fragment f py) = (ran own, refl, refl, refl, refl)

choice-Ends :
    (b fork p : Bool) (x y z : List Event × Outcome)
    → Ends true p x
    → Ends false p y
    → Ends false p z
    → Ends b p (if b then x else if fork then y else z)
choice-Ends true fork p x y z l _ _ = l
choice-Ends false true p x y z _ l _ = l
choice-Ends false false p x y z _ _ l = l

invoke_on-Orderly : (k : Planner) (path : Text) (i : Invocation) → Orderly i (invoke_on k path i)
unfolding invoke_on invoke_async_task invoke_isolated_task invoke_here propagate_deps
    spawn_isolated_child
invoke_on-Orderly k path i =
    let int = get_interpreter k i in
    let files = push_files k path i in
    let modules = module_deps k i in
    choice-Ends i.wrap_async (should_fork k i) i.propagates _ _ _
      (async-Ends k files modules i.spawns i.propagates int)
      (isolated-Ends k files modules i.spawns i.propagates int)
      (here-Ends k files modules i.propagates int)

nothing-Orderly : (i : Invocation) (o : Outcome) → Orderly i ([], o)
nothing-Orderly i o = (start, refl, refl, refl, refl)

planned-Orderly :
    (path : Text) (i : Invocation) (c : Option (Planner × Cache)) (cache : Cache)
    → Orderly i (planned path i c cache).0
planned-Orderly path i none cache = nothing-Orderly i no_method
planned-Orderly path i (some (k, cache')) cache = invoke_on-Orderly k path i

invoke_path-Orderly :
    (a : Ansible) (path : Option Text) (i : Invocation) (cache : Cache)
    → Orderly i (invoke_path a path i cache).0
unfolding invoke_path
invoke_path-Orderly a none i cache = nothing-Orderly i no_module
invoke_path-Orderly a (some path) i cache = planned-Orderly path i _ cache

-- Whatever the module, the interpreter line and the planners chosen before: a module is run only in a
-- context that was sent its files, and a child is spawned before and shut down after. When the
-- invocation ends, with an error or not, no child is left unless the task is asynchronous or sending
-- the files raised; where that raised, nothing more is called, neither the module nor the shutdown; and
-- an asynchronous task has used nothing but the child.
pub invoke-Orderly : (a : Ansible) (i : Invocation) (cache : Cache) → Orderly i (invoke a i cache).0
unfolding invoke
invoke-Orderly a i cache = invoke_path-Orderly a i.module_path i cache

replanned :
    (a : Ansible) (path : Text) (i : Invocation) (cache : Cache) (k fresh : Option Planner)
    → get cache path ≡ k
    → let c = planned path i (cached path k fresh cache) cache in
      (planned path i (cached path (get c.1 path) fresh c.1) c.1).0 ≡ c.0
unfolding cached
replanned a path i cache (some k) fresh e = rw (e, cached) refl
replanned a path i cache none none e = rw (e, cached) refl
replanned a path i cache none (some k) e = rw (get-set_self cache path k, cached) refl

reinvoked :
    (a : Ansible) (path : Option Text) (i : Invocation) (cache : Cache)
    → (invoke_path a path i (invoke_path a path i cache).1).0 ≡ (invoke_path a path i cache).0
unfolding invoke_path
reinvoked a none i cache = refl
reinvoked a (some path) i cache =
    replanned a path i cache (get cache path) (get_planner a i.module_source) refl

-- The same invocation again, with the planners remembered from the first, makes the same calls and
-- ends the same way.
pub invoke-again :
    (a : Ansible) (i : Invocation) (cache : Cache)
    → (invoke a i (invoke a i cache).1).0 ≡ (invoke a i cache).0
unfolding invoke
invoke-again a i cache = reinvoked a i.module_path i cache

-- A script whose interpreter line names an absolute path is never taken for Python, whatever the
-- path: the test is made on the path and not on its last part.
pub interpreter_of-absolute :
    (i : Invocation) (path : Text) (arg : Option Text)
    → (f : Text) × (interpreter_of i (interpreter (b'/' ∷ path) arg) ≡ fragment f false)
unfolding interpreter_of starts_with
interpreter_of-absolute i path arg = (_, refl)
