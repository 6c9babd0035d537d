-- ===== src/AnsibleMitogen/Actions.antt =====
-- mitogen-0.2.9/ansible_mitogen/mixins.py: `ActionModuleMixin`, the actions that run on the controller and
-- what they ask of the target in place of shell commands.
pub mod Executable
pub mod Module
mod Tests
use ansible_course.Base.{
  ℕ, zero, suc, Bool, true, false, String, Text, Option, none, some, List, [], ◌∷◌, ◌++◌, ◌==◌,
  ◌&&◌, ◌||◌, not, nat_key, text_key, if◌then◌else◌,
}
use ansible_course.Base.Lists.{codes, contains}
use ansible_course.Base.Dict.{Dict, get, set_item}
use ansible_course.AnsibleMitogen.Target.Chmod.{Spec, text, NewMode, chmod_to, set_file_mode}

-- `COMMAND_RESULT`, as `fake_shell` fills it.
pub record CommandResult : Type 0 where
  pub rc : ℕ
  pub stdout : Text
  pub stderr : Text

abbrev pub command_result : CommandResult
command_result = record { rc = 0; stdout = []; stderr = [] }

-- What `func()` does: a value with its `repr`, or `CallError` with its traceback.
pub data Called : Type 0 where
  value : Text → Called
  call_error : Text → Called

-- `fake_shell`
pub fake_shell : Called → Bool → CommandResult
fake_shell (value repr) stdout =
    if stdout then record command_result { stdout = repr } else command_result
fake_shell (call_error traceback) stdout = record command_result { rc = 1; stderr = traceback }

-- The modes of the target's files, and which of them may not be changed.
abbrev pub Modes : Type 0
Modes = Text → Option ℕ

abbrev put_mode : Text → ℕ → Modes → Modes
put_mode path m fs p = if path == p then some m else fs p

abbrev pub new_mode : Text → NewMode → Modes → Modes × Bool
new_mode path (chmod_to n) fs = (put_mode path n fs, true)
new_mode path _ fs = (fs, false)

abbrev pub remote_mode : Spec → Text → Option ℕ → Modes → Modes × Bool
remote_mode spec path none fs = (fs, false)
remote_mode spec path (some m) fs = new_mode path (set_file_mode spec m) fs

-- One call of `target.set_file_mode`: whether it returned.
pub call_set_file_mode : (Text → Bool) → Spec → Text → Modes → Modes × Bool
call_set_file_mode refuses spec path fs =
    if refuses path then (fs, false) else remote_mode spec path (fs path) fs

-- A call on a chain: the connection's chain is pipelined, so that where an earlier call on it raised, the
-- target answers with that error and does not run the function.
pub call_on_chain : (Text → Bool) → Spec → Bool → Text → Modes → Modes × Bool
unfolding call_set_file_mode
call_on_chain refuses spec true path fs = (fs, false)
call_on_chain refuses spec false path fs = call_set_file_mode refuses spec path fs

-- The calls for all paths, which the target takes in their order: the modes, and whether all returned.
pub call_async_all : (Text → Bool) → Spec → Bool → List Text → Modes → Modes × Bool
unfolding call_on_chain
call_async_all refuses spec broken [] fs = (fs, true)
call_async_all refuses spec broken (path ∷ paths) fs =
    let (gs, ok) = call_on_chain refuses spec broken path fs in
    let (hs, all_ok) = call_async_all refuses spec (not ok) paths gs in (hs, ok && all_ok)

-- `_remote_chmod`, with whether the chain is broken by an earlier call
pub remote_chmod : (Text → Bool) → Text → Spec → Bool → List Text → Modes → Modes × CommandResult
unfolding call_async_all fake_shell
remote_chmod refuses traceback mode broken paths fs =
    let (gs, ok) = call_async_all refuses mode broken paths fs in
    (gs, fake_shell (if ok then value (codes "[]") else call_error traceback) false)

-- `FIXUP_PERMS_RED_HERRING`
abbrev pub fixup_perms_red_herring : List Text
fixup_perms_red_herring = codes "copy" ∷ []

-- `_fixup_perms2`
pub fixup_perms2 :
    (Text → Bool) → Text → Text → Bool → Bool → List Text → Modes → Modes × CommandResult
unfolding remote_chmod contains
fixup_perms2 refuses traceback action execute broken remote_paths fs =
    if execute && not (contains fixup_perms_red_herring action)
    then remote_chmod refuses traceback (text (codes "u+x")) broken remote_paths fs
    else (fs, command_result)

-- `_remote_expand_user`: a path that is left, the home directory, what `os.path.join` makes of it, or what
-- `os.path.expanduser` gives on the target, asked of the login account or not.
pub data Expanded : Type 0 where
  same homedir : Expanded
  joined_to_homedir : Text → Expanded
  asked : Bool → Expanded

abbrev qualified : Bool → Text → Expanded
qualified sudoable [] = homedir
qualified sudoable (c ∷ rest) = if c == b'/' then joined_to_homedir rest else asked (not sudoable)

pub remote_expand_user : Bool → Bool → Text → Expanded
remote_expand_user become sudoable [] = same
remote_expand_user become sudoable (c ∷ path) =
    if not (c == b'~')
    then same
    else if sudoable || not become
    then qualified sudoable path
    else asked (not sudoable)
