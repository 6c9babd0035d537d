-- ===== src/AnsibleMitogen/Planner/Tests.antt =====
-- mitogen-0.2.9/ansible_mitogen/planner.py: three modules, and what is called for them.
use ansible_course.Base.{true, false, Text, some, ◌∷◌, [], ◌≡◌, refl, ◌==◌, nat_key}
use ansible_course.Base.Lists.{codes, length}
use ansible_course.AnsibleMitogen.Planner.{
  Ansible, Planner, planners, Invocation, get_planner, old_style, want_json, new_style, invoke,
  Outcome, called, no_interpreter, call_failed, spawn, propagate, child, missing,
  invoke_isolated_task, propagate_deps, spawn_isolated_child, push_files, module_deps, fragment,
  interpreter_of, contains_text,
}
use ansible_course.AnsibleMitogen.Planner.Running.{Orderly, invoke-Orderly}

abbrev ansible : Ansible
ansible = record {
  is_binary = λ s. length s == 0;
  replacer_jsonargs = codes "<<INCLUDE_ANSIBLE_MODULE_JSON_ARGS>>";
}

abbrev script : Text
script = codes "#!/usr/bin/python -u"

abbrev ping : Invocation
ping = record {
  module_name = codes "ping";
  module_path = some (codes "/m/ping");
  module_source = script;
  wrap_async = false;
  mitogen_task_isolation = some (codes "fork");
  task_vars = [];
  template = λ t. t;
  builtin_modules = [];
  custom_modules = [];
  spawns = true;
  propagates = true;
}

invoke-Orderly_example : Orderly ping (invoke ansible ping []).0
invoke-Orderly_example = invoke-Orderly ansible ping []

-- The child of a task with a context of its own is left where its files cannot be sent.
child_left :
    invoke_isolated_task old_style (codes "/m/ping") (record ping { propagates = false }) missing
    ≡ (spawn ∷ propagate child (codes "/m/ping" ∷ []) [] ∷ [], call_failed)
unfolding invoke_isolated_task propagate_deps spawn_isolated_child push_files module_deps
child_left = refl

script_is_old_style : get_planner ansible script ≡ some old_style
unfolding get_planner ansible_course.AnsibleMitogen.Planner.detect contains_text
script_is_old_style = refl
