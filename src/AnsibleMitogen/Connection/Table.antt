-- ===== src/AnsibleMitogen/Connection/Table.antt =====
-- mitogen-0.2.9/ansible_mitogen/connection.py: hops over SSH, and the table of all methods.
use ansible_course.Base.{
  Bool, false, String, Option, none, some, List, [], ◌∷◌, string_key, if◌then◌else◌,
}
use ansible_course.Base.Dict.{Dict, get}
use ansible_course.AnsibleMitogen.Transport.{Spec}
use ansible_course.AnsibleMitogen.Connection.{
  text, words, hidden, flag, Call, key_error, split_error, Result, ok, err, and_then, Env,
  get_remote_name, convert_bool, or_number, expanded, required,
}
use ansible_course.AnsibleMitogen.Connection.Containers.{
  connect_local, connect_buildah, connect_docker, connect_kubectl, connect_jail, connect_lxc,
  connect_lxd, connect_machinectl, connect_setns,
}
use ansible_course.AnsibleMitogen.Connection.Users.{
  connect_su, connect_sudo, connect_doas, connect_mitogen_su, connect_mitogen_sudo,
  connect_mitogen_doas,
}

-- `_connect_ssh`
pub ssh_call : Env → Spec → Bool → List String → Call
unfolding get_remote_name
ssh_call env s compression ssh_args = record {
  method = "ssh";
  enable_lru = false;
  kwargs =
      ("check_host_keys", text (some (if env.host_key_checking then "enforce" else "ignore")))
      ∷ ("hostname", text s.remote_addr)
      ∷ ("username", text s.remote_user)
      ∷ ("compression", flag compression)
      ∷ ("password", hidden s.password)
      ∷ ("port", text s.port)
      ∷ ("python_path", words s.python_path)
      ∷ ("identity_file", text (expanded env.expanduser s.private_key_file))
      ∷ ("identities_only", flag false)
      ∷ ("ssh_path", text s.ssh_executable)
      ∷ ("connect_timeout", text s.ansible_ssh_timeout)
      ∷ ("ssh_args", words (some ssh_args))
      ∷ ("ssh_debug_level", text s.mitogen_ssh_debug_level)
      ∷ ("remote_name", get_remote_name s)
      ∷ ("keepalive_count", or_number s.mitogen_ssh_keepalive_count 10)
      ∷ ("keepalive_interval", or_number s.mitogen_ssh_keepalive_interval 30)
      ∷ [];
}

pub connect_ssh : Env → Spec → Result Call
unfolding and_then convert_bool ssh_call
connect_ssh env s = and_then (convert_bool env.lower s.mitogen_ssh_compression) λ compression.
    and_then (required split_error s.ssh_args) λ ssh_args. ok (ssh_call env s compression ssh_args)

-- `CONNECTION_METHOD`
pub connection_method : Dict String (Env → Spec → Result Call)
unfolding connect_ssh
connection_method =
    ("buildah", λ _ s. ok (connect_buildah s))
    ∷ ("docker", λ _ s. ok (connect_docker s))
    ∷ ("kubectl", λ _ s. ok (connect_kubectl s))
    ∷ ("jail", λ _ s. ok (connect_jail s))
    ∷ ("local", λ _ s. ok (connect_local s))
    ∷ ("lxc", λ _ s. ok (connect_lxc s))
    ∷ ("lxd", λ _ s. connect_lxd s)
    ∷ ("machinectl", λ _ s. connect_machinectl s)
    ∷ ("setns", λ _ s. connect_setns none s)
    ∷ ("ssh", connect_ssh)
    ∷ ("smart", connect_ssh)
    ∷ ("su", λ _ s. ok (connect_su s))
    ∷ ("sudo", λ _ s. ok (connect_sudo s))
    ∷ ("doas", λ _ s. ok (connect_doas s))
    ∷ ("mitogen_su", λ _ s. ok (connect_mitogen_su s))
    ∷ ("mitogen_sudo", λ _ s. ok (connect_mitogen_sudo s))
    ∷ ("mitogen_doas", λ _ s. ok (connect_mitogen_doas s))
    ∷ []

-- `CONNECTION_METHOD[name](spec)`
abbrev called : Env → Spec → Option (Env → Spec → Result Call) → Result Call
called env s none = err key_error
called env s (some make) = make env s

unfoldable pub hop : Env → Spec → Option String → Result Call
unfolding connection_method
hop env s none = err key_error
hop env s (some name) = called env s (get connection_method name)
