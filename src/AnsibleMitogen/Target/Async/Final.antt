-- ===== src/AnsibleMitogen/Target/Async/Final.antt =====
-- mitogen-0.2.9/ansible_mitogen/target.py: how a job ends.
use ansible_course.Base.{
  Bool, true, false, Text, Option, none, some, List, [], ◌==◌, ◌&&◌, ◌≡◌, ◌⊎◌, refl, sym, ap, ◌∙◌,
  not, nat_key, text_key, text_same_iff, Bool-cases, Option-cases, inl, inr, if◌then◌else◌,
}
use ansible_course.Base.Lists.{codes}
use ansible_course.Base.Dict.{get, set_item, get-set_item}
use ansible_course.AnsibleMitogen.Target.Async.{
  Json, number, str, lines, Doc, Output, Moment, in_module, in_parse, after_parse, ModuleEnd, gave,
  raised, interrupted, World, State, fine, exception, base_exception, Run, then_run, except_run,
  setdefault, completed_doc, update, started_doc, time_limit_doc, unparsed_doc, traceback_doc,
  on_sigalrm, same_moment, alarm_at, module_exit, run_module, extended, stderr_of, filtered_doc,
  parsed_end, parse_result, send_started, report, report_if, run_job, stopped, init, run,
}

-- What each key of a result that is written holds: the module's own value, but for the standard error, the
-- warnings that are added, and the defaults of two keys.
abbrev pub given_or : Option Json → Json → Option Json
given_or none v = some v
given_or (some u) v = some u

abbrev pub value_of : World → Output → Doc → List Text → Text → Option Json
value_of w out result warnings k =
    if codes "data" == k
    then given_or (get result (codes "data")) (str [])
    else if codes "ansible_job_id" == k
    then given_or (get result (codes "ansible_job_id")) (str w.job_id)
    else if codes "stderr" == k
    then some (stderr_of out.stderr (get result (codes "stderr")))
    else if codes "warnings" == k
    then some (lines warnings)
    else get result k

-- The file has the JSON that the module printed.
abbrev pub IsResult : World → Doc → Type 0
IsResult w d =
    (out : Output) × (filtered : Text) × (added : List Text) × (result : Doc) × (warnings : List
      Text)
    × (w.module_end ≡ gave out)
    × (w.filter_non_json_lines out.stdout ≡ some (filtered, added))
    × (w.json_loads filtered ≡ some result)
    × (extended (get result (codes "warnings")) added ≡ some warnings)
    × ((k : Text) → get d k ≡ value_of w out result warnings k)

-- The file says that the job failed, and is not the one of a job that was started.
abbrev pub IsFailure : Doc → Type 0
IsFailure d = (get d (codes "failed") ≡ some (number 1)) × (get d (codes "started") ≡ none)

abbrev pub HasEnd : World → Option Doc → Type 0
HasEnd w none = ⊥
HasEnd w (some d) = IsFailure d ⊎ IsResult w d

-- A job that was timed out says so.
Marked : World → State → Type 0
Marked w s = (s.timed_out ≡ false) ⊎ HasEnd w s.file

-- What holds after a run of some of the statements, if it ends well, of the exceptions it may raise.
abbrev After : (State → Type 0) → World → Run → Type 0
After P w (s, fine) = P s
After P w (s, exception) = Unit
After P w (s, base_exception) = w.module_end ≡ interrupted

Over : World → State → Type 0
Over w s = HasEnd w s.file

get-setdefault :
    (d : Doc) (key : Text) (v : Json) (k : Text)
    → get (setdefault d key v) k ≡ (if key == k then given_or (get d key) v else get d k)
unfolding setdefault
get-setdefault d key v k = elim (Option-cases (get d key)) [
  | inl e ↦ rw (e, get-set_item) refl
  | inr (u, e) ↦ elim (Bool-cases (key == k)) [
    | inl same ↦ rw (e, same) (ap (get d) (sym ((text_same_iff key k).0 same)) ∙ e)
    | inr differs ↦ rw (e, differs) refl
  ]
]

module _ (P Q : State → Type 0) (w : World) where
  then-After :
      (r : Run) (next : State → Run)
      → After P w r
      → ((s : State) → P s → After Q w (next s))
      → After Q w (then_run r next)
  then-After (s, fine) next h f = f s h
  then-After (s, exception) next h f = tt
  then-After (s, base_exception) next h f = h

  except-After :
      (r : Run) (handler : State → Run)
      → After Q w r
      → ((s : State) → After Q w (handler s))
      → After Q w (except_run r handler)
  except-After (s, fine) handler h f = h
  except-After (s, exception) handler h f = f s
  except-After (s, base_exception) handler h f = h

update-After :
    (P : State → Type 0) (w : World) (d : Doc) (s : State)
    → P (record s { file = some (completed_doc w d) })
    → After P w (update w d s)
unfolding update
update-After P w d s h = elim (Bool-cases (w.update_fails d)) [ inl t ↦ rw t tt | inr n ↦ rw n h ]

alarm-After :
    (P : State → Type 0) (w : World) (m : Moment) (s : State)
    → P s
    → P (record s {
      file = some (completed_doc w (time_limit_doc w));
      timed_out = true;
      shut_down = true;
    })
    → After P w (alarm_at w m s)
unfolding alarm_at on_sigalrm update
alarm-After P w m s h timed =
    elim (Bool-cases (not (w.timeout_secs == 0) && same_moment w.alarm m)) [
      | inl t ↦ rw t (elim (Bool-cases (w.update_fails (time_limit_doc w))) [
        | inl f ↦ rw f tt
        | inr n ↦ rw n timed
      ])
      | inr n ↦ rw n h
    ]

Waits : State → Type 0
Waits s = s.timed_out ≡ false

-- What is written for a failure is one.
time_limit-IsFailure : (w : World) → IsFailure (completed_doc w (time_limit_doc w))
unfolding completed_doc setdefault get set_item
time_limit-IsFailure w = (refl, refl)

unparsed-IsFailure : (w : World) (out : Output) → IsFailure (completed_doc w (unparsed_doc w out))
unfolding completed_doc setdefault get set_item
unparsed-IsFailure w out = (refl, refl)

traceback-IsFailure : (w : World) → IsFailure (completed_doc w (traceback_doc w))
unfolding completed_doc setdefault get set_item
traceback-IsFailure w = (refl, refl)

get-completed_doc :
    (w : World) (d : Doc) (k : Text)
    → get (completed_doc w d) k ≡ (
        if codes "data" == k
        then given_or (get d (codes "data")) (str [])
        else if codes "ansible_job_id" == k
        then given_or (get d (codes "ansible_job_id")) (str w.job_id)
        else get d k)
unfolding completed_doc
get-completed_doc w d k =
    let e = setdefault d (codes "ansible_job_id") (str w.job_id) in
    rw
      (
        get-setdefault e (codes "data") (str []) k,
        get-setdefault d (codes "ansible_job_id") (str w.job_id) k,
        get-setdefault d (codes "ansible_job_id") (str w.job_id) (codes "data"),
      )
      refl

abbrev result_doc : Output → Doc → List Text → Doc
result_doc out result warnings =
    set_item (set_item result (codes "warnings") (lines warnings)) (codes "stderr")
      (stderr_of out.stderr (get result (codes "stderr")))

get-result_doc :
    (out : Output) (result : Doc) (warnings : List Text) (k : Text)
    → get (result_doc out result warnings) k ≡ (
        if codes "stderr" == k
        then some (stderr_of out.stderr (get result (codes "stderr")))
        else if codes "warnings" == k
        then some (lines warnings)
        else get result k)
get-result_doc out result warnings k =
    get-set_item (set_item result (codes "warnings") (lines warnings)) (codes "stderr") _ k
    ∙ ap
        (λ o.
          if codes "stderr" == k
          then some (stderr_of out.stderr (get result (codes "stderr")))
          else o)
        (get-set_item result (codes "warnings") (lines warnings) k)

result_value :
    (w : World) (out : Output) (result : Doc) (warnings : List Text) (k : Text)
    → get (completed_doc w (result_doc out result warnings)) k ≡ value_of w out result warnings k
result_value w out result warnings k =
    rw
      (
        get-completed_doc w (result_doc out result warnings) k,
        get-result_doc out result warnings (codes "data"),
        get-result_doc out result warnings (codes "ansible_job_id"),
        get-result_doc out result warnings k,
      )
      refl

parsed-After :
    (w : World) (out : Output) (s : State)
    → w.module_end ≡ gave out
    → After (Over w) w (parsed_end w (filtered_doc w out (w.filter_non_json_lines out.stdout)) s)
unfolding Over
parsed-After w out s e = elim (Option-cases (w.filter_non_json_lines out.stdout)) [
  | inl f ↦ rw f tt
  | inr ((filtered, added), f) ↦ elim (Option-cases (w.json_loads filtered)) [
    | inl l ↦ rw (f, l) tt
    | inr (result, l) ↦ elim (Option-cases (extended (get result (codes "warnings")) added)) [
      | inl x ↦ rw (f, l, x) tt
      | inr (warnings, x) ↦
          rw (f, l, x)
            (update-After (Over w) w _ s (
              inr (
                out,
                filtered,
                added,
                result,
                warnings,
                e,
                f,
                l,
                x,
                result_value w out result warnings,
              )))
    ]
  ]
]

parse_result-After :
    (w : World) (out : Output) (s : State)
    → w.module_end ≡ gave out
    → After (Over w) w (parse_result w out s)
unfolding parse_result
parse_result-After w out s e =
    then-After (λ t. Unit) (Over w) w (alarm_at w in_parse s) _
      (alarm-After (λ t. Unit) w in_parse s tt tt) (λ t u. parsed-After w out t e)

report_if-After :
    (w : World) (out : Output) (s : State) (timed_out : Bool)
    → w.module_end ≡ gave out
    → s.timed_out ≡ timed_out
    → Marked w s
    → After (Over w) w (report_if w out s timed_out)
unfolding Marked Over
report_if-After w out s true g e (inl f) = cc
report_if-After w out s true g e (inr over) = over
report_if-After w out s false g e m =
    then-After (Over w) (Over w) w
      (except_run (parse_result w out s) (update w (unparsed_doc w out))) (alarm_at w after_parse)
      (except-After (Over w) (Over w) w (parse_result w out s) (update w (unparsed_doc w out))
        (parse_result-After w out s g)
        (λ t. update-After (Over w) w (unparsed_doc w out) t (inl (unparsed-IsFailure w out))))
      (λ t o. alarm-After (Over w) w after_parse t o (inl (time_limit-IsFailure w)))

module_exit-After :
    (w : World) (e : ModuleEnd) (s : State)
    → w.module_end ≡ e
    → Marked w s
    → After (Over w) w (module_exit e (report w) s)
module_exit-After w (gave out) s h m = report_if-After w out s s.timed_out h refl m
module_exit-After w raised s h m = tt
module_exit-After w interrupted s h m = h

run_module-After : (w : World) (s : State) → Waits s → After (Over w) w (run_module w (report w) s)
unfolding run_module Marked Waits
run_module-After w s h =
    then-After (Marked w) (Over w) w (alarm_at w in_module s) (module_exit w.module_end (report w))
      (alarm-After (Marked w) w in_module s (inl h) (inr (inl (time_limit-IsFailure w))))
      (λ t m. module_exit-After w w.module_end t refl m)

send-After : (w : World) (s : State) → Waits s → After Waits w (send_started w s)
unfolding Waits
send-After w s h = elim (Bool-cases w.send_fails) [ inl t ↦ rw t tt | inr n ↦ rw n h ]

run_job-After : (w : World) → After (Over w) w (run_job w init)
unfolding run_job init Waits
run_job-After w =
    then-After Waits (Over w) w _ (run_module w (report w))
      (then-After Waits Waits w _ (send_started w) (update-After Waits w (started_doc w) init refl)
        (send-After w))
      (run_module-After w)

-- How a run ends.
abbrev pub IsOver : World → Run → Type 0
IsOver w (s, e) =
    (s.shut_down ≡ true)
    × (HasEnd w s.file ⊎ (w.module_end ≡ interrupted) ⊎ (w.update_fails (traceback_doc w) ≡ true))

stopped-IsOver :
    (w : World) (r : Run)
    → After (Over w) w r
    → IsOver w (stopped (except_run r (update w (traceback_doc w))))
unfolding Over update
stopped-IsOver w (s, fine) h = (refl, inl h)
stopped-IsOver w (s, exception) h = elim (Bool-cases (w.update_fails (traceback_doc w))) [
  | inl t ↦ rw t (refl, inr (inr refl))
  | inr n ↦ rw n (refl, inl (inl (traceback-IsFailure w)))
]
stopped-IsOver w (s, base_exception) h = (refl, inr (inl h))

-- However the module, the updates of the status file, the message to the controller and the alarm
-- turn out: a job comes to an end that shuts the process's broker down, and its file says `failed` 1 and
-- has no `started`, or it has the module's own JSON, key by key, with the standard error, the warnings
-- and the defaults of `_update`; unless the module ended by what is no `Exception`, or the traceback could
-- not be written.
pub run-IsOver : (w : World) → IsOver w (run w)
unfolding run
run-IsOver w = stopped-IsOver w (run_job w init) (run_job-After w)
