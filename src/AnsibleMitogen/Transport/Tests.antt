-- ===== src/AnsibleMitogen/Transport/Tests.antt =====
-- mitogen-0.2.9/ansible_mitogen/transport_config.py: a host with a user and a Python of its own.
use ansible_course.Base.{true, none, some, [], ◌∷◌, string_key}
use ansible_course.AnsibleMitogen.Transport.{Shlex, Constants, PlayContext}
use ansible_course.AnsibleMitogen.Transport.Play
use ansible_course.AnsibleMitogen.Transport.Via
use ansible_course.AnsibleMitogen.Transport.Via.{var}

abbrev shlex : Shlex
shlex = record { split = λ s. s ∷ []; split_none = none }

abbrev constants : Constants
constants = record {
  default_transport = some "smart";
  default_remote_user = none;
  default_become_method = some "sudo";
  default_remote_port = none;
  default_private_key_file = none;
  ansible_ssh_executable = some "ssh";
  default_timeout = some "10";
  default_become_exe = none;
  default_become_flags = some "-H -S";
  default_sudo_flags = none;
  ansible_ssh_args = some "-C";
}

abbrev bastion : Via.Source
bastion = record {
  inventory_name = "bastion";
  host_vars = ("ansible_user", "ops") ∷ ("ansible_python_interpreter", "/opt/py") ∷ [];
  become_method = none;
  become_user = none;
  environ = [];
  shlex = shlex;
  constants = constants;
}

abbrev context : PlayContext
context = record {
  remote_addr = some "10.0.0.2";
  remote_user = some "ops";
  become = true;
  become_method = some "sudo";
  become_user = some "root";
  become_pass = none;
  password = none;
  port = none;
  private_key_file = none;
  ssh_executable = some "ssh";
  timeout = some "10";
  ssh_args = none;
  ssh_common_args = none;
  ssh_extra_args = none;
  become_exe = none;
  become_flags = some "";
  sudo_flags = none;
}

abbrev web : Play.Source
web = record {
  task_var = λ name. none;
  play_context = context;
  transport = some "ssh";
  inventory_name = "web";
  extra_args = [];
  environ = [];
  shlex = shlex;
  constants = constants;
}
