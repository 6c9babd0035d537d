-- ===== src/AnsibleMitogen/Transport/Via.antt =====
-- mitogen-0.2.9/ansible_mitogen/transport_config.py: `MitogenViaSpec`, for an intermediary host.
use ansible_course.Base.{
  Bool, String, Option, none, some, List, [], ◌++◌, ◌==◌, string_key, if◌then◌else◌,
}
use ansible_course.Base.Dict.{Dict, get}
use ansible_course.AnsibleMitogen.Transport.{
  Secret, truthy, ◌or◌, optional_secret, Spec, Shlex, Constants, or_empty, parse_python_path,
}

-- What the constructor is given, less the play context, which no method reads.
pub record Source : Type 0 where
  pub inventory_name : String
  pub host_vars : Dict String String
  pub become_method : Option String
  pub become_user : Option String
  pub environ : Dict String String
  pub shlex : Shlex
  pub constants : Constants

-- `self._host_vars.get(name)`
abbrev pub var : Source → String → Option String
var s name = get s.host_vars name

pub transport : Source → Option String
transport s = var s "ansible_connection" or s.constants.default_transport

pub remote_addr : Source → Option String
remote_addr s = var s "ansible_ssh_host" or (var s "ansible_host" or some s.inventory_name)

pub remote_user : Source → Option String
remote_user s =
    var s "ansible_ssh_user" or (var s "ansible_user" or s.constants.default_remote_user)

pub become : Source → Bool
become s = truthy s.become_user

pub become_method : Source → Option String
become_method s =
    s.become_method or (var s "ansible_become_method" or s.constants.default_become_method)

pub become_pass : Source → Option Secret
become_pass s = optional_secret (var s "ansible_become_password" or var s "ansible_become_pass")

pub password : Source → Option Secret
password s = optional_secret (var s "ansible_ssh_pass" or var s "ansible_password")

pub port : Source → Option String
port s = var s "ansible_ssh_port" or (var s "ansible_port" or s.constants.default_remote_port)

pub python_path : Source → Option (List String)
python_path s =
    parse_python_path s.shlex (var s "ansible_python_interpreter" or some "/usr/bin/python")

pub private_key_file : Source → Option String
private_key_file s =
    var s "ansible_ssh_private_key_file"
    or (var s "ansible_private_key_file" or s.constants.default_private_key_file)

pub ssh_executable : Source → Option String
ssh_executable s = var s "ansible_ssh_executable" or s.constants.ansible_ssh_executable

pub timeout : Source → Option String
timeout s = s.constants.default_timeout

pub ansible_ssh_timeout : Source → Option String
unfolding timeout
ansible_ssh_timeout s = var s "ansible_timeout" or (var s "ansible_ssh_timeout" or timeout s)

-- `for term in shlex_split(s) if s`: the split is made before the test.
pub terms : Shlex → Option String → Option (List String)
terms shlex none = elim shlex.split_none [ none ↦ none | some _ ↦ some [] ]
terms shlex (some s) = some (if s == "" then [] else shlex.split s)

abbrev joined : Option (List String) → Option (List String) → Option (List String)
joined none more = none
joined (some ts) none = none
joined (some ts) (some us) = some (ts ++ us)

pub ssh_args : Source → Option (List String)
unfolding terms
ssh_args s =
    joined
      (terms s.shlex (
        var s "ansible_ssh_args"
        or (s.constants.ansible_ssh_args or get s.environ "ANSIBLE_SSH_ARGS")))
      (joined
        (terms s.shlex (var s "ansible_ssh_common_args" or get s.environ "ANSIBLE_SSH_COMMON_ARGS"))
        (terms s.shlex (var s "ansible_ssh_extra_args" or get s.environ "ANSIBLE_SSH_EXTRA_ARGS")))

pub become_exe : Source → Option String
become_exe s = var s "ansible_become_exe" or s.constants.default_become_exe

unfoldable pub sudo_args : Source → List String
sudo_args s =
    s.shlex.split (or_empty (var s "ansible_sudo_flags"))
    ++ s.shlex.split (or_empty (var s "ansible_become_flags"))

-- `self.host_vars` is no attribute of the object: the method raises whatever the variables say.
pub data Attribute : Type 0 where
  value : Option String → Attribute
  attribute_error : Attribute

abbrev found : Attribute → Option (Option String)
found (value v) = some v
found attribute_error = none

pub mitogen_lxc_path : Source → Attribute
mitogen_lxc_path s = attribute_error

pub ansible_doas_exe : Source → Option String
ansible_doas_exe s = var s "ansible_doas_exe" or get s.environ "ANSIBLE_DOAS_EXE"

unfoldable pub spec : Source → Spec
unfolding mitogen_lxc_path transport remote_addr remote_user become become_method become_pass
    password port python_path private_key_file ssh_executable timeout ansible_ssh_timeout ssh_args
    become_exe sudo_args ansible_doas_exe
spec s = record {
  transport = transport s;
  inventory_name = s.inventory_name;
  remote_addr = remote_addr s;
  remote_user = remote_user s;
  password = password s;
  become = become s;
  become_method = become_method s;
  become_user = s.become_user;
  become_pass = become_pass s;
  port = port s;
  python_path = python_path s;
  private_key_file = private_key_file s;
  ssh_executable = ssh_executable s;
  timeout = timeout s;
  ansible_ssh_timeout = ansible_ssh_timeout s;
  ssh_args = ssh_args s;
  become_exe = become_exe s;
  sudo_args = sudo_args s;
  mitogen_via = var s "mitogen_via";
  mitogen_kind = var s "mitogen_kind";
  mitogen_mask_remote_name = var s "mitogen_mask_remote_name";
  mitogen_buildah_path = var s "mitogen_buildah_path";
  mitogen_docker_path = var s "mitogen_docker_path";
  mitogen_kubectl_path = var s "mitogen_kubectl_path";
  mitogen_lxc_path = found (mitogen_lxc_path s);
  mitogen_lxc_attach_path = var s "mitogen_lxc_attach_path";
  mitogen_lxc_info_path = var s "mitogen_lxc_info_path";
  mitogen_machinectl_path = var s "mitogen_machinectl_path";
  mitogen_ssh_keepalive_interval = var s "mitogen_ssh_keepalive_interval";
  mitogen_ssh_keepalive_count = var s "mitogen_ssh_keepalive_count";
  mitogen_ssh_debug_level = var s "mitogen_ssh_debug_level";
  mitogen_ssh_compression = var s "mitogen_ssh_compression";
  extra_args = [];
  ansible_doas_exe = ansible_doas_exe s;
}
