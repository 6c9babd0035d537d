-- ===== src/AnsibleMitogen/Strategy/Loaders.antt =====
-- mitogen-0.2.9/ansible_mitogen/strategy.py: what Ansible's plugin loaders and workers do while they are
-- patched. The loaders themselves are parameters.
use ansible_course.Base.{
  Bool, true, Text, Option, none, some, List, [], ◌∷◌, ◌++◌, not, text_key, if◌then◌else◌,
}
use ansible_course.Base.Lists.{codes, contains}
use ansible_course.AnsibleMitogen.Planner.{text_lt}
use ansible_course.AnsibleMitogen.Strategy.{Hook, original, wrapped}

-- `REDIRECTED_CONNECTION_PLUGINS`
abbrev pub redirected_connection_plugins : List Text
redirected_connection_plugins =
    codes "buildah"
    ∷ codes "docker"
    ∷ codes "kubectl"
    ∷ codes "jail"
    ∷ codes "local"
    ∷ codes "lxc"
    ∷ codes "lxd"
    ∷ codes "machinectl"
    ∷ codes "setns"
    ∷ codes "ssh"
    ∷ []

pub connection_name : Text → Text
unfolding contains
connection_name name =
    if contains redirected_connection_plugins name then codes "mitogen_" ++ name else name

-- `wrap_connection_loader__get`, on what the loader's own `get` makes of a name.
pub wrap_connection_loader_get {ℓ} : {A : Type ℓ} → (Text → A) → Text → A
unfolding connection_name
wrap_connection_loader_get get name = get (connection_name name)

-- The keyword arguments of a request for an action: `collection_list` stands there from Ansible 2.8 on,
-- and is `None` if the caller gave none.
pub record Asked : Type 0 where
  pub name : Text
  pub class_only : Bool
  pub collection_list : Option (Option Text)

pub data Answer (K : Type 0) : Type 0 where
  nothing : Answer K
  adorned instance_of : K → Answer K

pub action_name : Text → Text
unfolding contains
action_name name = if contains (codes "fetch" ∷ []) name then codes "mitogen_" ++ name else name

pub asked : Text → Text → Option Text → Asked
unfolding action_name text_lt
asked version name collection_list = record {
  name = action_name name;
  class_only = true;
  collection_list = if not (text_lt version (codes "2.8")) then some collection_list else none;
}

-- `wrap_action_loader__get`: the class that is found, with `ActionModuleMixin` before it, or an instance.
pub wrap_action_loader_get :
    {K : Type 0} → Text → (Asked → Option K) → Text → Bool → Option Text → Answer K
unfolding asked
wrap_action_loader_get version get name class_only collection_list =
    elim (get (asked version name collection_list)) [
      | none ↦ nothing
      | some klass ↦ if class_only then adorned klass else instance_of klass
    ]

-- What happens in a worker and before it is started.
pub data Event : Type 0 where
  setproctitle : Text → Text → Event
  ignore_sigterm set_process_name assign_worker worker_run : Event
  find_module get_action get_connection : Text → Event
  base_queue_task : Event

-- `wrap_worker__run`
pub wrap_worker_run : Bool → Bool → Text → Text → List Event
wrap_worker_run has_setproctitle profiling host action =
    (if has_setproctitle then setproctitle host action ∷ [] else [])
    ++ ((if profiling then ignore_sigterm ∷ [] else [])
        ++ (set_process_name ∷ assign_worker ∷ worker_run ∷ []))

-- What a loader is asked for through its `get`.
abbrev pub through : Hook → (Text → Text) → Text → Text
through original rename name = name
through wrapped rename name = rename name

-- `_queue_task`; `none` is the connection that Ansible did not choose yet.
pub queue_task : Hook → Hook → Text → Option Text → List Event
unfolding action_name connection_name
queue_task actions connections action connection =
    find_module action ∷ get_action (through actions action_name action) ∷ elim connection [
      | none ↦ base_queue_task ∷ []
      | some name ↦ get_connection (through connections connection_name name) ∷ base_queue_task ∷ []
    ]
