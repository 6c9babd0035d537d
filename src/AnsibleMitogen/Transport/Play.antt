-- ===== src/AnsibleMitogen/Transport/Play.antt =====
-- mitogen-0.2.9/ansible_mitogen/transport_config.py: `PlayContextSpec`, for the target of a task.
use ansible_course.Base.{
  Bool, false, String, Option, none, some, List, [], ◌∷◌, ◌++◌, ◌==◌, string_key, if◌then◌else◌,
}
use ansible_course.Base.Dict.{Dict, get}
use ansible_course.AnsibleMitogen.Transport.{
  ◌or◌, optional_secret, first_true, Spec, Shlex, Constants, PlayContext, or_empty,
  parse_python_path,
}

-- `task_var` is the connection's `get_task_var`.
pub record Source : Type 0 where
  pub task_var : String → Option String
  pub play_context : PlayContext
  pub transport : Option String
  pub inventory_name : String
  pub extra_args : List String
  pub environ : Dict String String
  pub shlex : Shlex
  pub constants : Constants

pub python_path : Source → Option (List String)
python_path s =
    parse_python_path s.shlex (s.task_var "ansible_python_interpreter" or some "/usr/bin/python")

pub ansible_ssh_timeout : Source → Option String
ansible_ssh_timeout s =
    s.task_var "ansible_timeout" or (s.task_var "ansible_ssh_timeout" or s.play_context.timeout)

pub ssh_args : Source → List String
ssh_args s =
    s.shlex.split (or_empty s.play_context.ssh_args)
    ++ (s.shlex.split (or_empty s.play_context.ssh_common_args)
        ++ s.shlex.split (or_empty s.play_context.ssh_extra_args))

abbrev is_sudo : Option String → Bool
is_sudo none = false
is_sudo (some m) = m == "sudo"

abbrev exe_for : Option String → Option String → Option String
exe_for none become_method = if is_sudo become_method then some "sudo" else none
exe_for (some exe) become_method = some exe

pub become_exe : Source → Option String
become_exe s = exe_for s.play_context.become_exe s.play_context.become_method

abbrev pub flags_text : Option String → String
flags_text none = ""
flags_text (some f) = f

unfoldable pub sudo_flags : Source → Option String
sudo_flags s =
    first_true
      (s.play_context.become_flags ∷ s.play_context.sudo_flags ∷ s.constants.default_become_flags
        ∷ s.constants.default_sudo_flags ∷ [])
      (some "")

unfoldable pub sudo_args : Source → List String
unfolding sudo_flags
sudo_args s = s.shlex.split (flags_text (sudo_flags s))

pub mitogen_lxc_path : Source → Option String
mitogen_lxc_path s = s.task_var "mitogen_lxc_path"

pub ansible_doas_exe : Source → Option String
ansible_doas_exe s = s.task_var "ansible_doas_exe" or get s.environ "ANSIBLE_DOAS_EXE"

unfoldable pub spec : Source → Spec
unfolding mitogen_lxc_path python_path ansible_ssh_timeout ssh_args become_exe sudo_args
    ansible_doas_exe
spec s = record {
  transport = s.transport;
  inventory_name = s.inventory_name;
  remote_addr = s.play_context.remote_addr;
  remote_user = s.play_context.remote_user;
  password = optional_secret s.play_context.password;
  become = s.play_context.become;
  become_method = s.play_context.become_method;
  become_user = s.play_context.become_user;
  become_pass = optional_secret s.play_context.become_pass;
  port = s.play_context.port;
  python_path = python_path s;
  private_key_file = s.play_context.private_key_file;
  ssh_executable = s.play_context.ssh_executable;
  timeout = s.play_context.timeout;
  ansible_ssh_timeout = ansible_ssh_timeout s;
  ssh_args = some (ssh_args s);
  become_exe = become_exe s;
  sudo_args = sudo_args s;
  mitogen_via = s.task_var "mitogen_via";
  mitogen_kind = s.task_var "mitogen_kind";
  mitogen_mask_remote_name = s.task_var "mitogen_mask_remote_name";
  mitogen_buildah_path = s.task_var "mitogen_buildah_path";
  mitogen_docker_path = s.task_var "mitogen_docker_path";
  mitogen_kubectl_path = s.task_var "mitogen_kubectl_path";
  mitogen_lxc_path = some (mitogen_lxc_path s);
  mitogen_lxc_attach_path = s.task_var "mitogen_lxc_attach_path";
  mitogen_lxc_info_path = s.task_var "mitogen_lxc_info_path";
  mitogen_machinectl_path = s.task_var "mitogen_machinectl_path";
  mitogen_ssh_keepalive_interval = s.task_var "mitogen_ssh_keepalive_interval";
  mitogen_ssh_keepalive_count = s.task_var "mitogen_ssh_keepalive_count";
  mitogen_ssh_debug_level = s.task_var "mitogen_ssh_debug_level";
  mitogen_ssh_compression = s.task_var "mitogen_ssh_compression";
  extra_args = s.extra_args;
  ansible_doas_exe = ansible_doas_exe s;
}
