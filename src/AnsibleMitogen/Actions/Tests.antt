-- ===== src/AnsibleMitogen/Actions/Tests.antt =====
-- mitogen-0.2.9/ansible_mitogen/mixins.py: files made executable, and a temporary directory.
use ansible_course.Base.{
  ℕ, Bool, true, false, Text, List, none, some, [], ◌∷◌, ◌++◌, ◌==◌, ◌&&◌, ◌||◌, not, ◌≡◌, refl,
  text_key, nat_key, if◌then◌else◌,
}
use ansible_course.Base.Lists.{codes, contains}
use ansible_course.AnsibleMitogen.Planner.{text_lt}
use ansible_course.AnsibleMitogen.Actions.{
  Modes, fixup_perms2, remote_expand_user, joined_to_homedir, asked,
}
use ansible_course.AnsibleMitogen.Actions.Executable.{
  Becomes, allowed, reached, fixup_perms2-Executable,
}
use ansible_course.AnsibleMitogen.Actions.Module.{
  Setting, Execution, Shell, newer, make_tmp_path, remove_tmp_path, mkdir, prune_tree,
  low_level_command,
}
use ansible_course.AnsibleMitogen.Actions.Module.Kept.{AllInvoked, execute_all, pruned, tmpdir-Kept}

abbrev files : Modes
files p = if p == codes "/t/a" || p == codes "/t/c" then some 420 else none

abbrev refuses : Text → Bool
refuses p = false

-- The second of three paths is missing.
abbrev three : List Text
three = codes "/t/a" ∷ codes "/t/b" ∷ codes "/t/c" ∷ []

fixup_perms2-Executable_example :
    let r = fixup_perms2 refuses [] (codes "script") true false three files in
    let wanted = true && not (codes "script" == codes "copy") in
    Becomes
      (wanted && contains (reached refuses false three files) (codes "/t/a"))
      (files (codes "/t/a"))
      (r.0 (codes "/t/a"))
    × (r.1.rc ≡ (if not wanted || allowed refuses false three files then 0 else 1))
fixup_perms2-Executable_example =
    fixup_perms2-Executable refuses [] (codes "script") true false three files (codes "/t/a")

first_only : reached refuses false three files ≡ codes "/t/a" ∷ []
first_only = refl

home : remote_expand_user true true (codes "~/x") ≡ joined_to_homedir (codes "x")
unfolding remote_expand_user
home = refl

login_account : remote_expand_user true false (codes "~/x") ≡ asked true
unfolding remote_expand_user
login_account = refl

shell_command :
    low_level_command
      (λ cmd. codes "'" ++ (cmd ++ codes "'"))
      (some (codes "/bin/sh"))
      []
      (codes "id -u")
    ≡ codes "/bin/sh -c 'id -u'"
unfolding low_level_command
shell_command = refl

abbrev setting : Setting ℕ
setting = record {
  version = codes "2.8.0";
  task_action = codes "ping";
  task_args = [];
  update_module_args = λ name args. args;
  good_temp_dir = codes "/tmp";
  invoke = λ broken name args wrap_async. (some 0, false);
}

abbrev ping : Execution
ping = record {
  module_name = none;
  module_args = none;
  tmp = codes "/tmp/x";
  delete_remote_tmp = true;
  wrap_async = false;
}

abbrev shell : Shell
shell = record { tmpdir = none; sent = []; carried_out = []; broken = false }

tmpdir-Kept_example :
    let u = execute_all setting (ping ∷ ping ∷ []) (make_tmp_path (codes "/tmp/x") shell) in
    let t = remove_tmp_path (codes "2.8.0") none u in
    AllInvoked setting
      (ping ∷ ping ∷ [])
      (make_tmp_path (codes "/tmp/x") shell)
      (some (codes "/tmp/x"))
    × (t.tmpdir ≡ none)
    × (t.sent ≡ [] ++ (mkdir (codes "/tmp/x") ∷ prune_tree (codes "/tmp/x") ∷ []))
    × (t.carried_out ≡ [] ++ pruned u.broken (codes "/tmp/x"))
unfolding newer text_lt
tmpdir-Kept_example =
    tmpdir-Kept setting (codes "/tmp/x") (ping ∷ ping ∷ []) shell refl refl refl refl
