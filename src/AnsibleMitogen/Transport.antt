-- ===== src/AnsibleMitogen/Transport.antt =====
-- mitogen-0.2.9/ansible_mitogen/transport_config.py: the sources of a connection's configuration.
-- Ansible's variables, play context, constants and environment are records of what the code reads.
pub mod Play
pub mod Via
pub mod Precedence
mod Tests
use ansible_course.Base.{
  ℕ, Bool, true, false, String, Option, none, some, List, [], ◌∷◌, ◌++◌, ◌&&◌, ◌==◌, not,
  string_key, if◌then◌else◌,
}
use ansible_course.Base.Dict.{Dict, get, is_some}

-- `mitogen.core.Secret`, which hides a value from logs.
pub data Secret : Type 0 where
  secret : String → Secret

-- Python's truth of a variable: `None` and the empty string are false. Ports and timeouts that are
-- numbers are held as their texts.
abbrev pub truthy : Option String → Bool
truthy none = false
truthy (some s) = not (s == "")

-- `a or b`
infixr 30 ◌or◌
abbrev pub ◌or◌ : Option String → Option String → Option String
a or b = if truthy a then a else b

-- `optional_secret`
pub optional_secret : Option String → Option Secret
optional_secret none = none
optional_secret (some value) = some (secret value)

-- `first_true`
pub first_true : List (Option String) → Option String → Option String
first_true [] default = default
first_true (elem ∷ it) default = if truthy elem then elem else first_true it default

-- `class Spec`: the values that make up a connection's configuration, one for each method. An
-- argument vector is `None` where the code hands none over.
pub record Spec : Type 0 where
  pub transport : Option String
  pub inventory_name : String
  pub remote_addr : Option String
  pub remote_user : Option String
  pub password : Option Secret
  pub become : Bool
  pub become_method : Option String
  pub become_user : Option String
  pub become_pass : Option Secret
  pub port : Option String
  pub python_path : Option (List String)
  pub private_key_file : Option String
  pub ssh_executable : Option String
  pub timeout : Option String
  pub ansible_ssh_timeout : Option String
  -- `none` where splitting an argument that is `None` raises
  pub ssh_args : Option (List String)
  pub become_exe : Option String
  pub sudo_args : List String
  pub mitogen_via : Option String
  pub mitogen_kind : Option String
  pub mitogen_mask_remote_name : Option String
  pub mitogen_buildah_path : Option String
  pub mitogen_docker_path : Option String
  pub mitogen_kubectl_path : Option String
  pub mitogen_lxc_path : Option (Option String)  -- `none` where the method raises
  pub mitogen_lxc_attach_path : Option String
  pub mitogen_lxc_info_path : Option String
  pub mitogen_machinectl_path : Option String
  pub mitogen_ssh_keepalive_interval : Option String
  pub mitogen_ssh_keepalive_count : Option String
  pub mitogen_ssh_debug_level : Option String
  pub mitogen_ssh_compression : Option String
  pub extra_args : List String
  pub ansible_doas_exe : Option String

-- `ansible.utils.shlex.shlex_split` on a text, and what it does on `None`: `none` if it raises.
pub record Shlex : Type 0 where
  pub split : String → List String
  pub split_none : Option (List String)

-- `ansible.constants`
pub record Constants : Type 0 where
  pub default_transport : Option String
  pub default_remote_user : Option String
  pub default_become_method : Option String
  pub default_remote_port : Option String
  pub default_private_key_file : Option String
  pub ansible_ssh_executable : Option String
  pub default_timeout : Option String
  pub default_become_exe : Option String
  pub default_become_flags : Option String
  pub default_sudo_flags : Option String
  pub ansible_ssh_args : Option String

-- `ansible.playbook.play_context.PlayContext`
pub record PlayContext : Type 0 where
  pub remote_addr : Option String
  pub remote_user : Option String
  pub become : Bool
  pub become_method : Option String
  pub become_user : Option String
  pub become_pass : Option String
  pub password : Option String
  pub port : Option String
  pub private_key_file : Option String
  pub ssh_executable : Option String
  pub timeout : Option String
  pub ssh_args : Option String
  pub ssh_common_args : Option String
  pub ssh_extra_args : Option String
  pub become_exe : Option String
  pub become_flags : Option String
  pub sudo_flags : Option String

-- `s or ''`
abbrev pub or_empty : Option String → String
or_empty s = elim (s or some "") [ none ↦ "" | some t ↦ t ]

-- `parse_python_path`
pub parse_python_path : Shlex → Option String → Option (List String)
parse_python_path shlex none = none
parse_python_path shlex (some s) = if s == "" then none else some (shlex.split s)
