-- ===== src/AnsibleMitogen/Connection/Tests.antt =====
-- mitogen-0.2.9/ansible_mitogen/connection.py: a web server behind two jump hosts, and two hosts behind each other.
use ansible_course.Base.{String, none, some, true, false, [], ◌∷◌, string_key}
use ansible_course.AnsibleMitogen.Transport.{Shlex, Constants}
use ansible_course.AnsibleMitogen.Transport.Via
use ansible_course.AnsibleMitogen.Connection.{Env}
use ansible_course.AnsibleMitogen.Connection.Stack.{Hosts, build_stack}
use ansible_course.AnsibleMitogen.Connection.Stack.Chain.{Answers, build_stack-Answers}

abbrev constants : Constants
constants = record {
  default_transport = some "ssh";
  default_remote_user = none;
  default_become_method = some "sudo";
  default_remote_port = none;
  default_private_key_file = none;
  ansible_ssh_executable = some "ssh";
  default_timeout = some "10";
  default_become_exe = none;
  default_become_flags = none;
  default_sudo_flags = none;
  ansible_ssh_args = some "-C";
}

abbrev shlex : Shlex
shlex = record { split = λ s. s ∷ []; split_none = some [] }

abbrev env : Env
env = record {
  host_key_checking = true;
  become_allow_same_user = false;
  expanduser = λ s. s;
  lower = λ s. s;
  environ = [];
  shlex = shlex;
  constants = constants;
}

abbrev hosts : Hosts
hosts =
    ("edge", ("ansible_user", "ops") ∷ [])
    ∷ ("inner", ("mitogen_via", "edge") ∷ [])
    ∷ ("left", ("mitogen_via", "right") ∷ [])
    ∷ ("right", ("mitogen_via", "root@left") ∷ [])
    ∷ []

abbrev reached_by : String → String → Via.Source
reached_by name via = record {
  inventory_name = name;
  host_vars = ("mitogen_via", via) ∷ [];
  become_method = none;
  become_user = none;
  environ = [];
  shlex = shlex;
  constants = constants;
}

build_stack-Answers_example :
    Answers env hosts
      (Via.spec (reached_by "web" "ops@inner"))
      []
      (build_stack env hosts (Via.spec (reached_by "web" "ops@inner")))
build_stack-Answers_example =
    build_stack-Answers env hosts (Via.spec (reached_by "web" "ops@inner"))
