-- ===== src/AnsibleMitogen/Strategy/Undone.antt =====
-- mitogen-0.2.9/ansible_mitogen/strategy.py: what a strategy leaves of its patches.
use mathlib.Core.Path.{subst}
use ansible_course.Base.{
  ℕ, suc, Text, Option, [], ◌∷◌, ◌++◌, ap, inl, inr, none, some, ◌≡◌, refl, sym, ◌∙◌, Option-cases,
}
use ansible_course.Base.Lists.{codes}
use ansible_course.AnsibleMitogen.Strategy.{
  Hook, original, wrapped, Process, install, Ends, unsupported, type_error, assertion_error, raised,
  set_over, put_back, begun, checked, remove, set_worker_model, complete, unset_worker_model,
  Strategy, modelled, started, run, Release, supported, too_old, too_recent, unordered,
  assert_supported_release,
}

-- The loaders are patched only while there is a worker model.
abbrev pub IsSound : Process → Type 0
IsSound p = p.worker_model ≡ none → (p.action_get ≡ original) × (p.connection_get ≡ original)

-- A strategy that, while there is a worker model, leaves the variable in which `install` saved
-- `WorkerProcess.run`.
abbrev pub Leaves : Strategy → Type 0
Leaves s = (m : ℕ) (p : Process) → p.worker_model ≡ some m → (s.play p).0.saved_run ≡ p.saved_run

abbrev pub finished : Option ℕ → Ends → Ends
finished none e = e
finished (some x) e = raised x

-- What the strategy runs in.
pub record InForce (model : ℕ) (base_dir : Text) (p r : Process) : Type 0 where
  pub actions : r.action_get ≡ wrapped
  pub connections : r.connection_get ≡ wrapped
  pub workers : r.worker_run ≡ wrapped
  pub model_set : r.worker_model ≡ some model
  pub nothing_completed : r.completed ≡ p.completed
  pub actions_below :
      r.action_directories ≡ p.action_directories ++ ((base_dir ++ codes "/action") ∷ [])
  pub connections_below :
      r.connection_directories
      ≡ p.connection_directories ++ ((base_dir ++ codes "/connection") ∷ [])

-- How the run ends, and what else it did, by the release, the worker model before, and what the start of the
-- strategy raises.
abbrev pub Course : ℕ → Strategy → Process → Process → Ends → Release → Option ℕ → Option ℕ → Type 0
Course model s p q e supported none none =
    (r : Process) × InForce model s.base_dir p r
    × (e ≡ finished s.finish (s.play r).1)
    × (q.completed ≡ suc (s.play r).0.completed)
    × (q.action_directories ≡ (s.play r).0.action_directories)
    × (q.connection_directories ≡ (s.play r).0.connection_directories)
Course model s p q e supported none (some x) =
    (e ≡ raised x)
    × (q.completed ≡ p.completed)
    × (q.action_directories ≡ p.action_directories)
    × (q.connection_directories ≡ p.connection_directories)
Course model s p q e supported (some m) start = (q ≡ p) × (e ≡ assertion_error)
Course model s p q e too_old was start = (q ≡ p) × (e ≡ unsupported)
Course model s p q e too_recent was start = (q ≡ p) × (e ≡ unsupported)
Course model s p q e unordered was start = (q ≡ p) × (e ≡ type_error)

pub record Undone (version : Text) (model : ℕ) (s : Strategy) (p q : Process) (e : Ends)
    : Type 0 where
  pub actions : q.action_get ≡ p.action_get
  pub connections : q.connection_get ≡ p.connection_get
  pub workers : q.worker_run ≡ p.worker_run
  pub model_as_before : q.worker_model ≡ p.worker_model
  pub course : Course model s p q e (assert_supported_release version) p.worker_model s.start

module _ (version : Text) (model : ℕ) (s : Strategy) (p : Process) (leaves : Leaves s) where
  Course-at :
      (q : Process) (e : Ends) (r : Release) (was start : Option ℕ)
      → assert_supported_release version ≡ r
      → p.worker_model ≡ was
      → s.start ≡ start
      → Course model s p q e r was start
      → Course model s p q e (assert_supported_release version) p.worker_model s.start
  Course-at q e r was start er ew es c =
      subst (λ x. Course model s p q e x p.worker_model s.start) (sym er)
        (subst (λ x. Course model s p q e r x s.start) (sym ew)
          (subst (λ x. Course model s p q e r was x) (sym es) c))

  unmodelled :
      {q : Process} {e : Ends}
      → q ≡ p
      → Course model s p q e (assert_supported_release version) p.worker_model s.start
      → Undone version model s p q e
  unmodelled same c = record {
    actions = ap (λ r. r.action_get) same;
    connections = ap (λ r. r.connection_get) same;
    workers = ap (λ r. r.worker_run) same;
    model_as_before = ap (λ r. r.worker_model) same;
    course = c;
  }

  -- `remove` puts back what `install` saved.
  remove-saved :
      (x : Process × Ends) (r : Hook)
      → x.0.saved_run ≡ some r
      → remove x
        ≡ (record x.0 { action_get = original; connection_get = original; worker_run = r }, x.1)
  unfolding remove
  remove-saved (q, e) r saved = ap (λ o. put_back o (q, e)) saved

  complete_lem :
      (o : Option ℕ) (x : Process × Ends)
      → complete o x ≡ (record x.0 { completed = suc x.0.completed }, finished o x.1)
  unfolding complete
  complete_lem none x = refl
  complete_lem (some e) x = refl

  module _ (ok : assert_supported_release version ≡ supported) where
    nested_run : (m : ℕ) → p.worker_model ≡ some m → Undone version model s p p assertion_error
    nested_run m set =
        unmodelled refl
          (Course-at p assertion_error supported (some m) s.start ok set refl (refl, refl))

    abbrev with_model : Process
    with_model = record p { worker_model = some model }

    failed_start :
        (x : ℕ)
        → p.worker_model ≡ none
        → s.start ≡ some x
        → Undone version model s p (record p { worker_model = none }) (raised x)
    failed_start x unset raises = record {
      actions = refl;
      connections = refl;
      workers = refl;
      model_as_before = sym unset;
      course =
          Course-at (record p { worker_model = none }) (raised x) supported none (some x) ok unset
            raises (refl, refl, refl, refl);
    }

    abbrev in_play : Process
    in_play = install s.base_dir with_model

    abbrev left : Process
    left = (s.play in_play).0

    abbrev after : Process
    after = record left {
      action_get = original;
      connection_get = original;
      worker_run = p.worker_run;
      completed = suc left.completed;
      worker_model = none;
    }

    after_play :
        IsSound p
        → p.worker_model ≡ none
        → s.start ≡ none
        → Undone version model s p after (finished s.finish (s.play in_play).1)
    unfolding install
    after_play sound unset starts = record {
      actions = sym (sound unset).0;
      connections = sym (sound unset).1;
      workers = refl;
      model_as_before = sym unset;
      course =
          Course-at after (finished s.finish (s.play in_play).1) supported none none ok unset starts
            (
              in_play,
              record {
                actions = refl;
                connections = refl;
                workers = refl;
                model_set = refl;
                nothing_completed = refl;
                actions_below = refl;
                connections_below = refl;
              },
              refl,
              refl,
              refl,
              refl,
            );
    }

    run_ok : run version model s p ≡ modelled s (set_worker_model model p) p
    unfolding run
    run_ok = ap (λ r. checked r model s p) ok

    run-started :
        p.worker_model ≡ none → run version model s p ≡ unset_worker_model (started s with_model)
    unfolding set_worker_model
    run-started unset = run_ok ∙ ap (λ o. modelled s (set_over o model p) p) unset

    run-plays :
        p.worker_model ≡ none
        → s.start ≡ none
        → run version model s p ≡ (after, finished s.finish (s.play in_play).1)
    unfolding unset_worker_model started install
    run-plays unset starts =
        run-started unset
        ∙ (ap (λ o. unset_worker_model (begun o s with_model)) starts
            ∙ (ap (λ x. unset_worker_model (complete s.finish x))
                  (remove-saved (s.play in_play) p.worker_run (leaves model in_play refl))
                ∙ ap unset_worker_model (complete_lem s.finish _)))

    run-fails :
        (x : ℕ)
        → p.worker_model ≡ none
        → s.start ≡ some x
        → run version model s p ≡ (record p { worker_model = none }, raised x)
    unfolding unset_worker_model started
    run-fails x unset raises =
        run-started unset ∙ ap (λ o. unset_worker_model (begun o s with_model)) raises

    run-nested : (m : ℕ) → p.worker_model ≡ some m → run version model s p ≡ (p, assertion_error)
    unfolding set_worker_model
    run-nested m set = run_ok ∙ ap (λ o. modelled s (set_over o model p) p) set

    Leaving : Process × Ends → Type 0
    Leaving x = Undone version model s p x.0 x.1

    run_supported : IsSound p → Leaving (run version model s p)
    unfolding Leaving
    run_supported sound = elim (Option-cases p.worker_model) [
      | inr (m, set) ↦ subst Leaving (sym (run-nested m set)) (nested_run m set)
      | inl unset ↦ elim (Option-cases s.start) [
        | inl starts ↦ subst Leaving (sym (run-plays unset starts)) (after_play sound unset starts)
        | inr (x, raises) ↦
            subst Leaving (sym (run-fails x unset raises)) (failed_start x unset raises)
      ]
    ]

-- A strategy that is not supported, or started while another one runs, leaves everything as it was. Any
-- other sets the worker model, plays with the loaders' `get` and the workers patched and with the plugin
-- directories of mitogen behind the others, unless its start raises; and whatever it or its end raises,
-- the loaders' `get`, `WorkerProcess.run` and the worker model are as they were before. The plugin
-- directories are not taken away: after the play they are as the play left them. The strategy is
-- completed once if it was started, and what its end raises counts.
pub run-Undone :
    (version : Text) (model : ℕ) (s : Strategy) (p : Process)
    → Leaves s
    → IsSound p
    → Undone version model s p (run version model s p).0 (run version model s p).1
unfolding run Leaving
run-Undone version model s p leaves sound = go (assert_supported_release version) refl
  where
    refused :
        (r : Release) (x : Process × Ends)
        → assert_supported_release version ≡ r
        → checked r model s p ≡ x
        → (x.0 ≡ p) × Course model s p x.0 x.1 r p.worker_model s.start
        → Undone version model s p (run version model s p).0 (run version model s p).1
    refused r x e answer (same, c) =
        subst (λ y. Undone version model s p y.0 y.1)
          (sym (ap (λ r. checked r model s p) e ∙ answer))
          (unmodelled version model s p leaves same
            (Course-at version model s p leaves x.0 x.1 r p.worker_model s.start e refl refl c))

    go :
        (r : Release)
        → assert_supported_release version ≡ r
        → Undone version model s p (run version model s p).0 (run version model s p).1
    go supported e = run_supported version model s p leaves e sound
    go too_old e = refused too_old (p, unsupported) e refl (refl, (refl, refl))
    go too_recent e = refused too_recent (p, unsupported) e refl (refl, (refl, refl))
    go unordered e = refused unordered (p, type_error) e refl (refl, (refl, refl))
