-- ===== src/AnsibleMitogen/Actions/Module/Kept.antt =====
-- mitogen-0.2.9/ansible_mitogen/mixins.py: how long the temporary directory of an action lasts.
use mathlib.Core.List.{append_assoc}
use mathlib.Core.Path.{subst}
use ansible_course.Base.{
  Bool, true, false, ◌||◌, Text, Option, none, some, List, [], ◌∷◌, ◌++◌, ◌≡◌, refl, ap, ◌∙◌, arith,
  text_key, if◌then◌else◌,
}
use ansible_course.Base.Lists.{codes}
use ansible_course.Base.Dict.{get, set_item, get-set_item}
use ansible_course.AnsibleMitogen.Planner.{text_lt}
use ansible_course.AnsibleMitogen.Actions.Module.{
  Request, mkdir, prune_tree, Shell, send, make_tmp_path, newer, remove_tmp_path, Args,
  set_temp_file_args, Execution, Setting, or_given, cleaned, execute_module, removed, or_tmpdir,
  with_tmpdir, with_remote_tmp,
}

-- Executions one after the other, whichever of them raise.
abbrev pub execute_all : {R : Type 0} → Setting R → List Execution → Shell → Shell
execute_all g [] s = s
execute_all g (e ∷ es) s = execute_all g es (execute_module g e s).0

-- What the module is invoked with.
abbrev pub Invoked :
    {R : Type 0} → Setting R → Option Text → Execution → Shell → Shell × Option R → Type 0
Invoked g tmpdir e s (t, r) =
    (name : Text) × (args : Args) × (r ≡ (g.invoke s.broken name args e.wrap_async).0)
    × (t.broken ≡ (s.broken || (g.invoke s.broken name args e.wrap_async).1))
    × (get args (codes "_ansible_tmpdir") ≡ some (if e.wrap_async then none else tmpdir))
    × (get args (codes "_ansible_remote_tmp") ≡ some (some g.good_temp_dir))

abbrev pub AllInvoked : {R : Type 0} → Setting R → List Execution → Shell → Option Text → Type 0
AllInvoked g [] s tmpdir = Unit
AllInvoked g (e ∷ es) s tmpdir =
    Invoked g tmpdir e s (execute_module g e s) × AllInvoked g es (execute_module g e s).0 tmpdir

module _ {R : Type 0} (g : Setting R) (recent : newer g.version (codes "2.6") ≡ true)
    (later : newer g.version (codes "2.5") ≡ true)
    (not_old : text_lt g.version (codes "2.5") ≡ false) where
  args_are :
      (wrap_async : Bool) (tmpdir : Option Text) (args : Args)
      → set_temp_file_args g.version wrap_async tmpdir g.good_temp_dir args
        ≡ set_item
            (set_item args (codes "_ansible_tmpdir") (if wrap_async then none else tmpdir))
            (codes "_ansible_remote_tmp")
            (some g.good_temp_dir)
  unfolding set_temp_file_args
  args_are wrap_async tmpdir args =
      ap
        (λ b.
          with_remote_tmp b g.good_temp_dir
            (with_tmpdir (newer g.version (codes "2.5")) wrap_async tmpdir args))
        recent
      ∙ ap (λ b. with_remote_tmp true g.good_temp_dir (with_tmpdir b wrap_async tmpdir args)) later

  temp_args :
      (wrap_async : Bool) (tmpdir : Option Text) (args : Args)
      → (get
            (set_temp_file_args g.version wrap_async tmpdir g.good_temp_dir args)
            (codes "_ansible_tmpdir")
          ≡ some (if wrap_async then none else tmpdir))
        × (get
              (set_temp_file_args g.version wrap_async tmpdir g.good_temp_dir args)
              (codes "_ansible_remote_tmp")
            ≡ some (some g.good_temp_dir))
  temp_args wrap_async tmpdir args =
      let both = args_are wrap_async tmpdir args in
      (
        ap (λ d. get d (codes "_ansible_tmpdir")) both
            ∙ (get-set_item _ (codes "_ansible_remote_tmp") _ (codes "_ansible_tmpdir")
                ∙ get-set_item args (codes "_ansible_tmpdir") _ (codes "_ansible_tmpdir")),
        ap (λ d. get d (codes "_ansible_remote_tmp")) both
            ∙ get-set_item _ (codes "_ansible_remote_tmp") _ (codes "_ansible_remote_tmp"),
      )

  cleaned-kept : (e : Execution) (r : Option R) (s : Shell) → cleaned g.version e r s ≡ (s, r)
  cleaned-kept e none s = refl
  cleaned-kept e (some r) s = ground (arith, not_old)

  module_args : Execution → Shell → Args
  module_args e s =
      let name = or_given e.module_name g.task_action in
      set_temp_file_args g.version e.wrap_async s.tmpdir g.good_temp_dir
        (g.update_module_args name (or_given e.module_args g.task_args))

  ending : Execution → Shell → Option R × Bool
  unfolding module_args
  ending e s =
      g.invoke s.broken (or_given e.module_name g.task_action) (module_args e s) e.wrap_async

  execute_module_lem :
      (e : Execution) (s : Shell)
      → execute_module g e s ≡ (record s { broken = s.broken || (ending e s).1 }, (ending e s).0)
  unfolding execute_module module_args ending
  execute_module_lem e s = cleaned-kept e _ _

  execute-Invoked : (e : Execution) (s : Shell) → Invoked g s.tmpdir e s (execute_module g e s)
  unfolding module_args ending
  execute-Invoked e s =
      let (tmp_arg, remote_tmp_arg) = temp_args e.wrap_async s.tmpdir _ in
      (
        or_given e.module_name g.task_action,
        module_args e s,
        ap (λ x. x.1) (execute_module_lem e s),
        ap (λ x. x.0.broken) (execute_module_lem e s),
        tmp_arg,
        remote_tmp_arg,
      )

  -- Nothing but whether the chain is broken changes.
  execute_all-same :
      (es : List Execution) (s : Shell)
      → execute_all g es s ≡ record s { broken = (execute_all g es s).broken }
  execute_all-same [] s = refl
  execute_all-same (e ∷ es) s =
      execute_all-same es (execute_module g e s).0
      ∙ ap (λ x. record x.0 { broken = (execute_all g es (execute_module g e s).0).broken })
          (execute_module_lem e s)

  execute_all-AllInvoked :
      (es : List Execution) (s : Shell) (tmpdir : Option Text)
      → s.tmpdir ≡ tmpdir
      → AllInvoked g es s tmpdir
  execute_all-AllInvoked [] s tmpdir h = tt
  execute_all-AllInvoked (e ∷ es) s tmpdir h = (
    subst (λ t. Invoked g t e s (execute_module g e s)) h (execute-Invoked e s),
    execute_all-AllInvoked es (execute_module g e s).0 tmpdir
        (ap (λ x. x.0.tmpdir) (execute_module_lem e s) ∙ h),
  )

  remove-recent :
      (path : Text) (s : Shell)
      → s.tmpdir ≡ some path
      → remove_tmp_path g.version none s ≡ record (send (prune_tree path) s) { tmpdir = none }
  unfolding remove_tmp_path
  remove-recent path s h =
      ap (λ b. removed (or_tmpdir b none s.tmpdir) s) recent ∙ ap (λ o. removed o s) h

-- What the target has carried out in the end, by whether a call on the chain raised before.
abbrev pub pruned : Bool → Text → List Request
pruned broken path = if broken then mkdir path ∷ [] else mkdir path ∷ prune_tree path ∷ []

abbrev carried : Bool → Text → List Request → List Request
carried broken path done = if broken then done else done ++ (prune_tree path ∷ [])

made-carried_out :
    (broken before : Bool) (path : Text) (done : List Request)
    → before ≡ false
    → carried broken path (if before then done else done ++ (mkdir path ∷ []))
      ≡ done ++ pruned broken path
made-carried_out true true path done h = cc
made-carried_out true false path done h = refl
made-carried_out false true path done h = cc
made-carried_out false false path done h =
    append_assoc done (mkdir path ∷ []) (prune_tree path ∷ [])

-- With an Ansible whose version is above 2.6 and not below 2.5, as texts, and a chain on which no call has
-- raised, a temporary directory that an action can make lasts over all the modules that it executes: each
-- of them is told to use it, or none if it runs on behind, and the good temporary directory for others.
-- The removal with no path given forgets it, and sends one request to prune just that directory. The
-- target carries that out unless the call of a module on the chain has raised: then the directory stays.
pub tmpdir-Kept :
    {R : Type 0} (g : Setting R) (path : Text) (es : List Execution) (s : Shell)
    → newer g.version (codes "2.6") ≡ true
    → newer g.version (codes "2.5") ≡ true
    → text_lt g.version (codes "2.5") ≡ false
    → s.broken ≡ false
    → let u = execute_all g es (make_tmp_path path s) in
      let t = remove_tmp_path g.version none u in
      AllInvoked g es (make_tmp_path path s) (some path)
      × (t.tmpdir ≡ none)
      × (t.sent ≡ s.sent ++ (mkdir path ∷ prune_tree path ∷ []))
      × (t.carried_out ≡ s.carried_out ++ pruned u.broken path)
unfolding make_tmp_path send
tmpdir-Kept g path es s recent later not_old whole =
    let m = make_tmp_path path s in
    let u = execute_all g es m in
    let same : u ≡ record m { broken = u.broken } = execute_all-same g recent later not_old es m in
    let gone = remove-recent g recent later not_old path u (ap (λ x. x.tmpdir) same) in
    (
      execute_all-AllInvoked g recent later not_old es m (some path) refl,
      ap (λ x. x.tmpdir) gone,
      ap (λ x. x.sent) gone
          ∙ (ap (λ x. x.sent ++ (prune_tree path ∷ [])) same
              ∙ append_assoc s.sent (mkdir path ∷ []) (prune_tree path ∷ [])),
      ap (λ x. x.carried_out) gone
          ∙ (ap (λ x. carried u.broken path x.carried_out) same
              ∙ made-carried_out u.broken s.broken path s.carried_out whole),
    )
