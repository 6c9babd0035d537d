-- ===== src/AnsibleMitogen/Actions/Module.antt =====
-- mitogen-0.2.9/ansible_mitogen/mixins.py: temporary directories of an action, and the execution of modules
-- and commands. What Ansible's base class does is a parameter.
pub mod Kept
use ansible_course.Base.{
  ℕ, zero, suc, Bool, true, false, Text, Option, none, some, List, [], ◌∷◌, ◌++◌, ◌==◌, ◌&&◌, ◌||◌,
  not, nat_key, text_key, if◌then◌else◌,
}
use ansible_course.Base.Lists.{codes}
use ansible_course.Base.Dict.{Dict, get, set_item, is_some}
use ansible_course.AnsibleMitogen.Planner.{text_lt}

-- What an action asks of its connection's chain, in order.
pub data Request : Type 0 where
  mkdir prune_tree : Text → Request

-- The connection's `_shell.tmpdir`, the requests that were sent on its chain, those that the target carried
-- out, and whether a call on the chain has raised. The chain is pipelined: once a call raised, the
-- target answers the later ones with that error and does not run them.
pub record Shell : Type 0 where
  pub tmpdir : Option Text
  pub sent : List Request
  pub carried_out : List Request
  pub broken : Bool

pub send : Request → Shell → Shell
send r s = record s {
  sent = s.sent ++ (r ∷ []);
  carried_out = if s.broken then s.carried_out else s.carried_out ++ (r ∷ []);
}

-- `_make_tmp_path`, with the name that `_generate_tmp_path` makes, where the directory can be made.
pub make_tmp_path : Text → Shell → Shell
unfolding send
make_tmp_path path s = record (send (mkdir path) s) { tmpdir = some path }

-- `ansible.__version__ > v`
unfoldable pub newer : Text → Text → Bool
unfolding text_lt
newer version v = text_lt v version

-- `_remove_tmp_path`
abbrev pub removed : Option Text → Shell → Shell
removed none s = record s { tmpdir = none }
removed (some path) s = record (send (prune_tree path) s) { tmpdir = none }

abbrev pub or_tmpdir : Bool → Option Text → Option Text → Option Text
or_tmpdir recent (some path) tmpdir = some path
or_tmpdir true none tmpdir = tmpdir
or_tmpdir false none tmpdir = none

pub remove_tmp_path : Text → Option Text → Shell → Shell
unfolding newer send
remove_tmp_path version tmp_path s =
    removed (or_tmpdir (newer version (codes "2.6")) tmp_path s.tmpdir) s

-- `_set_temp_file_args`: the inner `none` is Python's `None`.
abbrev pub Args : Type 0
Args = Dict Text (Option Text)

abbrev pub with_tmpdir : Bool → Bool → Option Text → Args → Args
with_tmpdir false wrap_async tmpdir args = args
with_tmpdir true wrap_async tmpdir args =
    set_item args (codes "_ansible_tmpdir") (if wrap_async then none else tmpdir)

abbrev pub with_remote_tmp : Bool → Text → Args → Args
with_remote_tmp false good_temp_dir args = args
with_remote_tmp true good_temp_dir args =
    set_item args (codes "_ansible_remote_tmp") (some good_temp_dir)

pub set_temp_file_args : Text → Bool → Option Text → Text → Args → Args
unfolding newer
set_temp_file_args version wrap_async tmpdir good_temp_dir args =
    with_remote_tmp (newer version (codes "2.6")) good_temp_dir
      (with_tmpdir (newer version (codes "2.5")) wrap_async tmpdir args)

-- What `_execute_module` is given.
pub record Execution : Type 0 where
  pub module_name : Option Text
  pub module_args : Option Args
  pub tmp : Text
  pub delete_remote_tmp : Bool
  pub wrap_async : Bool

-- The task, the parts of the base class and of the connection that are asked, and how `_connect` and
-- then the planner's `invoke` end, on a chain that is broken or not: with a result or none, and whether a
-- call on the chain raised.
pub record Setting (R : Type 0) : Type 0 where
  pub version : Text
  pub task_action : Text
  pub task_args : Args
  pub update_module_args : Text → Args → Args
  pub good_temp_dir : Text
  pub invoke : Bool → Text → Args → Bool → Option R × Bool

abbrev pub or_given {ℓ} : {A : Type ℓ} → Option A → A → A
or_given none a = a
or_given (some b) a = b

abbrev nonempty : Text → Bool
nonempty [] = false
nonempty (_ ∷ _) = true

abbrev pub cleaned : {R : Type 0} → Text → Execution → Option R → Shell → Shell × Option R
cleaned version e none s = (s, none)
cleaned version e (some r) s =
    if nonempty e.tmp && (text_lt version (codes "2.5") && e.delete_remote_tmp)
    then (remove_tmp_path version (some e.tmp) s, some r)
    else (s, some r)

abbrev pub invoked : {R : Type 0} → Text → Execution → Option R × Bool → Shell → Shell × Option R
invoked version e (r, raises) s = cleaned version e r (record s { broken = s.broken || raises })

-- `_execute_module`; `none` where `_connect` or `invoke` raises.
pub execute_module : {R : Type 0} → Setting R → Execution → Shell → Shell × Option R
unfolding remove_tmp_path set_temp_file_args text_lt
execute_module g e s =
    let name = or_given e.module_name g.task_action in
    let args = g.update_module_args name (or_given e.module_args g.task_args) in
    let args = set_temp_file_args g.version e.wrap_async s.tmpdir g.good_temp_dir args in
    invoked g.version e (g.invoke s.broken name args e.wrap_async) s

-- A value of a module's result; `other` is one that is neither a text nor a list, and is true.
pub data Value : Type 0 where
  null : Value
  text : Text → Value
  lines : List Text → Value
  other : ℕ → Value

-- `(v or u'').splitlines()`, or `AttributeError`.
abbrev pub lines_of : (Text → List Text) → Value → Option (List Text)
lines_of splitlines null = some (splitlines [])
lines_of splitlines (text t) = some (splitlines t)
lines_of splitlines (lines []) = some (splitlines [])
lines_of splitlines (lines (_ ∷ _)) = none
lines_of splitlines (other n) = none

abbrev pub Data : Type 0
Data = Dict Text Value

abbrev pub put_lines : Text → Data → Option (List Text) → Option Data
put_lines lines_key d none = none
put_lines lines_key d (some l) = some (set_item d lines_key (lines l))

abbrev pub with_lines : (Text → List Text) → Text → Option Value → Option Value → Data → Option Data
with_lines splitlines lines_key (some v) none d = put_lines lines_key d (lines_of splitlines v)
with_lines splitlines lines_key (some v) (some _) d = some d
with_lines splitlines lines_key none _ d = some d

pub add_lines : (Text → List Text) → Text → Text → Data → Option Data
unfolding get set_item
add_lines splitlines key lines_key d =
    with_lines splitlines lines_key (get d key) (get d lines_key) d

-- `_postprocess_response`, of what `_parse_returned_data` found.
pub postprocess_response : (Text → List Text) → Data → Option Data
unfolding add_lines
postprocess_response splitlines d =
    elim (add_lines splitlines (codes "stdout") (codes "stdout_lines") d) [
      | none ↦ none
      | some e ↦ add_lines splitlines (codes "stderr") (codes "stderr_lines") e
    ]

-- `_low_level_execute_command`: the command that is executed. `executable` is `None`, or a text that may be
-- empty; `False` stands for the empty text.
unfoldable pub low_level_command : (Text → Text) → Option Text → Text → Text → Text
low_level_command shlex_quote executable play_executable cmd =
    let shell = or_given executable play_executable in
    if nonempty shell then shell ++ (codes " -c " ++ shlex_quote cmd) else cmd
