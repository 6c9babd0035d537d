-- ===== src/AnsibleMitogen/Connection.antt =====
-- mitogen-0.2.9/ansible_mitogen/connection.py: the parameters of one hop of a connection.
pub mod Containers
pub mod Users
pub mod Table
pub mod Stack
pub mod Lifecycle
pub mod Local
pub mod Sending
mod Tests
use ansible_course.Base.{
  ℕ, Bool, true, false, String, Option, none, some, List, [], ◌∷◌, ◌==◌, string_key, if◌then◌else◌,
}
use ansible_course.Base.Lists.{contains}
use ansible_course.Base.Dict.{Dict, get}
use ansible_course.AnsibleMitogen.Transport.{Secret, truthy, ◌or◌, Spec, Shlex, Constants}

-- A keyword argument.
pub data Value : Type 0 where
  text : Option String → Value
  words : Option (List String) → Value
  hidden : Option Secret → Value
  flag : Bool → Value
  number : ℕ → Value

-- `{'method': …, 'enable_lru': …, 'kwargs': {…}}`
pub record Call : Type 0 where
  pub method : String
  pub enable_lru : Bool
  pub kwargs : Dict String Value

-- The exceptions: of `_stack_from_spec`, `get_host_vars` and `convert_bool`; `KeyError` for a method that
-- is not in the table; and those of the specification's own methods.
pub data Error : Type 0 where
  via_cycle unknown_via no_task_vars not_a_bool key_error attribute_error split_error : Error

pub data Result {ℓ} (A : Type ℓ) : Type ℓ where
  ok : A → Result A
  err : Error → Result A

pub and_then : {A B : Type 0} → Result A → (A → Result B) → Result B
and_then (ok a) f = f a
and_then (err e) f = err e

-- Ansible's settings, `os.path.expanduser` and `str.lower`.
pub record Env : Type 0 where
  pub host_key_checking : Bool
  pub become_allow_same_user : Bool
  pub expanduser : String → String
  pub lower : String → String
  pub environ : Dict String String
  pub shlex : Shlex
  pub constants : Constants

pub get_remote_name : Spec → Value
get_remote_name s = text (if truthy s.mitogen_mask_remote_name then some "ansible" else none)

-- `convert_bool(default(v, True))`
pub convert_bool : (String → String) → Option String → Result Bool
convert_bool lower none = ok true
convert_bool lower (some obj) =
    if contains ("no" ∷ "false" ∷ "0" ∷ []) (lower obj)
    then ok false
    else if contains ("yes" ∷ "true" ∷ "1" ∷ []) (lower obj)
    then ok true
    else err not_a_bool

-- `v or n`
abbrev pub or_number : Option String → ℕ → Value
or_number v n = if truthy v then text v else number n

abbrev pub expanded : (String → String) → Option String → Option String
expanded expanduser none = none
expanded expanduser (some path) = some (expanduser path)

abbrev pub required : {A : Type 0} → Error → Option A → Result A
required e none = err e
required e (some a) = ok a
