-- ===== src/AnsibleMitogen/Target/Async/Tests.antt =====
-- mitogen-0.2.9/ansible_mitogen/target.py: a job that is interrupted at its time limit.
use ansible_course.Base.{false, Option, none, some, [], ◌∷◌, ◌≡◌, refl, text_key, nat_key}
use ansible_course.Base.Lists.{codes}
use ansible_course.Base.Dict.{get, set_item}
use ansible_course.AnsibleMitogen.Target.Async.{
  in_module, gave, raised, ModuleEnd, World, run, run_job, run_module, parse_result, alarm_at,
  on_sigalrm, update, init, Json, Doc, number, setdefault, completed_doc, time_limit_doc,
  traceback_doc,
}
use ansible_course.AnsibleMitogen.Target.Async.Final.{IsOver, run-IsOver}

abbrev late : ModuleEnd → World
late module_end = record {
  job_id = codes "7";
  pid = 12;
  timeout_secs = 10;
  timeout_msg = codes "late";
  filter_non_json_lines = λ s. some (s, []);
  json_loads = λ s. some ((codes "finished", number 0) ∷ []);
  parse_traceback = codes "Traceback";
  run_traceback = codes "Traceback";
  alarm = in_module;
  module_end = module_end;
  update_fails = λ d. false;
  send_fails = false;
}

run-IsOver_example : IsOver (late raised) (run (late raised))
run-IsOver_example = run-IsOver (late raised)

-- The module has to return for the file to name the time limit.
status_when_late :
    let returns = gave (record { stdout = codes "{}"; stderr = [] }) in
    ((run (late returns)).0.file
      ≡ some (completed_doc (late returns) (time_limit_doc (late returns))))
    × ((run (late raised)).0.file
        ≡ some (completed_doc (late raised) (traceback_doc (late raised))))
unfolding run run_job run_module parse_result alarm_at on_sigalrm update init
status_when_late = (refl, refl)

-- The file of a job in time says that it is not finished, if the module says so.
abbrev in_time : World
in_time = record (late (gave (record { stdout = codes "{}"; stderr = [] }))) { timeout_secs = 0 }

abbrev finished_of : Option Doc → Option Json
finished_of none = none
finished_of (some d) = get d (codes "finished")

unfinished : finished_of (run in_time).0.file ≡ some (number 0)
unfolding run run_job run_module parse_result alarm_at on_sigalrm update init completed_doc
    setdefault get set_item
unfinished = refl
