-- ===== src/AnsibleMitogen/Target/Async.antt =====
-- mitogen-0.2.9/ansible_mitogen/target.py: `AsyncRunner`, which runs a job and keeps its status file.
pub mod Final
mod Tests
use ansible_course.Base.{
  ℕ, zero, suc, Bool, true, false, Text, Option, none, some, List, [], ◌∷◌, ◌++◌, ◌==◌, ◌&&◌, not,
  nat_key, text_key, if◌then◌else◌,
}
use ansible_course.Base.Lists.{codes}
use ansible_course.Base.Dict.{Dict, get, set_item}

-- A value of a status file: a number, a text, a list of texts, or anything else.
pub data Json : Type 0 where
  number : ℕ → Json
  str : Text → Json
  lines : List Text → Json
  other : ℕ → Json

abbrev pub Doc : Type 0
Doc = Dict Text Json

-- What `run_module` returns.
pub record Output : Type 0 where
  pub stdout : Text
  pub stderr : Text

-- When the alarm goes off: never, while the module runs, in `_parse_result`, or after it.
pub data Moment : Type 0 where
  never in_module in_parse after_parse : Moment

-- How `_run_module` ends: with output, by an `Exception`, or by another one.
pub data ModuleEnd : Type 0 where
  gave : Output → ModuleEnd
  raised interrupted : ModuleEnd

-- The job and what is not decided here: `_filter_non_json_lines` and `json.loads` with `none` where they
-- raise or give no dictionary, the texts of `traceback.format_exc()` in `_run` and in `run`, and which
-- calls fail.
pub record World : Type 0 where
  pub job_id : Text
  pub pid : ℕ
  pub timeout_secs : ℕ
  pub timeout_msg : Text
  pub filter_non_json_lines : Text → Option (Text × List Text)
  pub json_loads : Text → Option Doc
  pub parse_traceback : Text
  pub run_traceback : Text
  pub alarm : Moment
  pub module_end : ModuleEnd
  pub update_fails : Doc → Bool
  pub send_fails : Bool

pub record State : Type 0 where
  pub file : Option Doc
  pub started_sent : Bool
  pub timed_out : Bool
  pub shut_down : Bool

pub data Exit : Type 0 where
  fine exception base_exception : Exit

abbrev pub Run : Type 0
Run = State × Exit

-- One statement after another, and `try: ... except Exception: ...`.
abbrev pub then_run : Run → (State → Run) → Run
then_run (s, fine) next = next s
then_run (s, exception) next = (s, exception)
then_run (s, base_exception) next = (s, base_exception)

abbrev pub except_run : Run → (State → Run) → Run
except_run (s, fine) handler = (s, fine)
except_run (s, exception) handler = handler s
except_run (s, base_exception) handler = (s, base_exception)

-- `dct.setdefault(key, value)`
abbrev pub kept_or : Option Json → Text → Json → Doc → Doc
kept_or none key value d = set_item d key value
kept_or (some _) key value d = d

unfoldable pub setdefault : Doc → Text → Json → Doc
setdefault d key value = kept_or (get d key) key value d

unfoldable pub completed_doc : World → Doc → Doc
unfolding setdefault
completed_doc w d =
    setdefault (setdefault d (codes "ansible_job_id") (str w.job_id)) (codes "data") (str [])

-- `_update`: the new status is renamed into place, or the old one stays.
pub update : World → Doc → State → Run
unfolding completed_doc
update w d s =
    if w.update_fails d
    then (s, exception)
    else (record s { file = some (completed_doc w d) }, fine)

-- The dictionaries that are written.
abbrev pub started_doc : World → Doc
started_doc w =
    (codes "started", number 1) ∷ (codes "finished", number 0) ∷ (codes "pid", number w.pid) ∷ []

abbrev pub time_limit_doc : World → Doc
time_limit_doc w =
    (codes "failed", number 1)
    ∷ (codes "finished", number 1)
    ∷ (codes "msg", str w.timeout_msg)
    ∷ []

abbrev pub unparsed_doc : World → Output → Doc
unparsed_doc w out =
    (codes "failed", number 1)
    ∷ (codes "msg", str w.parse_traceback)
    ∷ (codes "data", str out.stdout)
    ∷ (codes "stderr", str out.stderr)
    ∷ []

abbrev pub traceback_doc : World → Doc
traceback_doc w = (codes "failed", number 1) ∷ (codes "msg", str w.run_traceback) ∷ []

-- `_on_sigalrm`
pub on_sigalrm : World → State → Run
unfolding update
on_sigalrm w s =
    then_run (update w (time_limit_doc w) s)
      (λ t. (record t { timed_out = true; shut_down = true }, fine))

-- The alarm of `_install_alarm`, if there is a time limit.
abbrev pub same_moment : Moment → Moment → Bool
same_moment in_module in_module = true
same_moment in_parse in_parse = true
same_moment after_parse after_parse = true
same_moment _ _ = false

pub alarm_at : World → Moment → State → Run
unfolding on_sigalrm
alarm_at w m s =
    if not (w.timeout_secs == 0) && same_moment w.alarm m then on_sigalrm w s else (s, fine)

-- `_run_module`, and what follows it
abbrev pub module_exit : ModuleEnd → (Output → State → Run) → State → Run
module_exit (gave out) next s = next out s
module_exit raised next s = (s, exception)
module_exit interrupted next s = (s, base_exception)

pub run_module : World → (Output → State → Run) → State → Run
unfolding alarm_at
run_module w next s = then_run (alarm_at w in_module s) (module_exit w.module_end next)

-- `_parse_result`: the warnings are added to a list that is there, and `.extend` of anything else raises.
abbrev pub extended : Option Json → List Text → Option (List Text)
extended none warnings = some warnings
extended (some (lines old)) warnings = some (old ++ warnings)
extended (some (number n)) warnings = none
extended (some (str s)) warnings = none
extended (some (other n)) warnings = none

-- `dct['stderr'] or result.get('stderr', '')`
abbrev pub stderr_of : Text → Option Json → Json
stderr_of (c ∷ s) old = str (c ∷ s)
stderr_of [] none = str []
stderr_of [] (some old) = old

abbrev pub with_warnings : Output → Doc → Option (List Text) → Option Doc
with_warnings out result none = none
with_warnings out result (some warnings) = some (
    set_item (set_item result (codes "warnings") (lines warnings)) (codes "stderr")
      (stderr_of out.stderr (get result (codes "stderr"))))

abbrev pub loaded : Output → List Text → Option Doc → Option Doc
loaded out warnings none = none
loaded out warnings (some result) =
    with_warnings out result (extended (get result (codes "warnings")) warnings)

abbrev pub filtered_doc : World → Output → Option (Text × List Text) → Option Doc
filtered_doc w out none = none
filtered_doc w out (some (filtered, warnings)) = loaded out warnings (w.json_loads filtered)

abbrev pub parsed_end : World → Option Doc → State → Run
parsed_end w (some result) s = update w result s
parsed_end w none s = (s, exception)

pub parse_result : World → Output → State → Run
unfolding alarm_at update
parse_result w out s =
    then_run (alarm_at w in_parse s)
      (parsed_end w (filtered_doc w out (w.filter_non_json_lines out.stdout)))

abbrev pub send_started : World → State → Run
send_started w s = if w.send_fails then (s, exception) else (record s { started_sent = true }, fine)

-- `if not self._timed_out:`
abbrev pub report_if : World → Output → State → Bool → Run
report_if w out s true = (s, fine)
report_if w out s false =
    then_run (except_run (parse_result w out s) (update w (unparsed_doc w out)))
      (alarm_at w after_parse)

abbrev pub report : World → Output → State → Run
report w out s = report_if w out s s.timed_out

-- `_run`
pub run_job : World → State → Run
unfolding update run_module parse_result alarm_at
run_job w s =
    then_run (then_run (update w (started_doc w) s) (send_started w)) (run_module w (report w))

abbrev pub stopped : Run → Run
stopped (s, e) = (record s { shut_down = true }, e)

-- `__init__`; `run`
pub init : State
init = record { file = none; started_sent = false; timed_out = false; shut_down = false }

pub run : World → Run
unfolding run_job update init
run w = stopped (except_run (run_job w init) (update w (traceback_doc w)))
