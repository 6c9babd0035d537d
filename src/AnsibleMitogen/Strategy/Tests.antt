-- ===== src/AnsibleMitogen/Strategy/Tests.antt =====
-- mitogen-0.2.9/ansible_mitogen/strategy.py: a strategy that runs another one, and releases.
use ansible_course.Base.{none, [], ◌≡◌, refl, ap, ◌∙◌, nat_key}
use ansible_course.Base.Lists.{codes}
use ansible_course.AnsibleMitogen.Strategy.{
  original, Process, returned, assertion_error, Strategy, modelled, set_over, checked, run,
  supported, too_recent, unordered, assert_supported_release, place, runs_of, parts_of, join,
  sort_of, int_from, started, unset_worker_model, set_worker_model, install, remove, complete,
}
use ansible_course.AnsibleMitogen.Strategy.Undone.{Leaves, Undone, run-Undone}

eight : assert_supported_release (codes "2.8.0rc1") ≡ supported
unfolding assert_supported_release place runs_of parts_of join sort_of int_from
eight = refl

ten : assert_supported_release (codes "2.10.1") ≡ too_recent
unfolding assert_supported_release place runs_of parts_of join sort_of int_from
ten = refl

-- No number at all.
devel : assert_supported_release (codes "devel") ≡ unordered
unfolding assert_supported_release place runs_of parts_of join sort_of int_from
devel = refl

abbrev fresh : Process
fresh = record {
  connection_directories = [];
  action_directories = [];
  action_get = original;
  connection_get = original;
  worker_run = original;
  saved_run = none;
  worker_model = none;
  completed = 0;
}

abbrev inner : Strategy
inner = record { base_dir = codes "/p"; start = none; finish = none; play = λ p. (p, returned 0) }

abbrev outer : Strategy
outer = record {
  base_dir = codes "/p";
  start = none;
  finish = none;
  play = run (codes "2.9.1") 1 inner;
}

accepted : assert_supported_release (codes "2.9.1") ≡ supported
unfolding assert_supported_release place runs_of parts_of join sort_of int_from
accepted = refl

outer-Leaves : Leaves outer
unfolding run set_worker_model
outer-Leaves m p set =
    ap (λ r. (checked r 1 inner p).0.saved_run) accepted
    ∙ ap (λ o. (modelled inner (set_over o 1 p) p).0.saved_run) set

run-Undone_example :
    Undone
      (codes "2.9.1")
      1
      outer
      fresh
      (run (codes "2.9.1") 1 outer fresh).0
      (run (codes "2.9.1") 1 outer fresh).1
run-Undone_example = run-Undone (codes "2.9.1") 1 outer fresh outer-Leaves (λ e. (refl, refl))

-- The inner one is refused, and that is how the outer one ends.
inner_refused : (run (codes "2.9.1") 1 outer fresh).1 ≡ assertion_error
unfolding run assert_supported_release place runs_of parts_of join sort_of int_from set_worker_model
    started install remove complete unset_worker_model
inner_refused = refl
