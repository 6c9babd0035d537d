-- ===== src/AnsibleMitogen/Connection/Containers.antt =====
-- mitogen-0.2.9/ansible_mitogen/connection.py: hops into containers and namespaces.
use ansible_course.Base.{false, String, Option, some, [], ◌∷◌, string_key}
use ansible_course.AnsibleMitogen.Transport.{◌or◌, Spec}
use ansible_course.AnsibleMitogen.Connection.{
  text, words, Call, attribute_error, Result, ok, and_then, get_remote_name, required,
}

-- `_connect_local`
pub connect_local : Spec → Call
connect_local s = record {
  method = "local";
  enable_lru = false;
  kwargs = ("python_path", words s.python_path) ∷ [];
}

-- `_connect_buildah`
pub connect_buildah : Spec → Call
unfolding get_remote_name
connect_buildah s = record {
  method = "buildah";
  enable_lru = false;
  kwargs =
      ("username", text s.remote_user)
      ∷ ("container", text s.remote_addr)
      ∷ ("python_path", words s.python_path)
      ∷ ("connect_timeout", text (s.ansible_ssh_timeout or s.timeout))
      ∷ ("remote_name", get_remote_name s)
      ∷ [];
}

-- `_connect_docker`
pub connect_docker : Spec → Call
unfolding get_remote_name
connect_docker s = record {
  method = "docker";
  enable_lru = false;
  kwargs =
      ("username", text s.remote_user)
      ∷ ("container", text s.remote_addr)
      ∷ ("python_path", words s.python_path)
      ∷ ("connect_timeout", text (s.ansible_ssh_timeout or s.timeout))
      ∷ ("remote_name", get_remote_name s)
      ∷ [];
}

-- `_connect_kubectl`
pub connect_kubectl : Spec → Call
unfolding get_remote_name
connect_kubectl s = record {
  method = "kubectl";
  enable_lru = false;
  kwargs =
      ("pod", text s.remote_addr)
      ∷ ("python_path", words s.python_path)
      ∷ ("connect_timeout", text (s.ansible_ssh_timeout or s.timeout))
      ∷ ("kubectl_path", text s.mitogen_kubectl_path)
      ∷ ("kubectl_args", words (some s.extra_args))
      ∷ ("remote_name", get_remote_name s)
      ∷ [];
}

-- `_connect_jail`
pub connect_jail : Spec → Call
unfolding get_remote_name
connect_jail s = record {
  method = "jail";
  enable_lru = false;
  kwargs =
      ("username", text s.remote_user)
      ∷ ("container", text s.remote_addr)
      ∷ ("python_path", words s.python_path)
      ∷ ("connect_timeout", text (s.ansible_ssh_timeout or s.timeout))
      ∷ ("remote_name", get_remote_name s)
      ∷ [];
}

-- `_connect_lxc`
pub connect_lxc : Spec → Call
unfolding get_remote_name
connect_lxc s = record {
  method = "lxc";
  enable_lru = false;
  kwargs =
      ("container", text s.remote_addr)
      ∷ ("python_path", words s.python_path)
      ∷ ("lxc_attach_path", text s.mitogen_lxc_attach_path)
      ∷ ("connect_timeout", text (s.ansible_ssh_timeout or s.timeout))
      ∷ ("remote_name", get_remote_name s)
      ∷ [];
}

-- `_connect_lxd`
pub connect_lxd : Spec → Result Call
unfolding get_remote_name and_then
connect_lxd s = and_then (required attribute_error s.mitogen_lxc_path) λ lxc_path. ok (record {
  method = "lxd";
  enable_lru = false;
  kwargs =
      ("container", text s.remote_addr)
      ∷ ("python_path", words s.python_path)
      ∷ ("lxc_path", text lxc_path)
      ∷ ("connect_timeout", text (s.ansible_ssh_timeout or s.timeout))
      ∷ ("remote_name", get_remote_name s)
      ∷ [];
})

-- `_connect_setns`
pub connect_setns : Option String → Spec → Result Call
unfolding and_then
connect_setns kind s = and_then (required attribute_error s.mitogen_lxc_path) λ lxc_path.
    ok (record {
      method = "setns";
      enable_lru = false;
      kwargs =
          ("container", text s.remote_addr)
          ∷ ("username", text s.remote_user)
          ∷ ("python_path", words s.python_path)
          ∷ ("kind", text (kind or s.mitogen_kind))
          ∷ ("docker_path", text s.mitogen_docker_path)
          ∷ ("lxc_path", text lxc_path)
          ∷ ("lxc_info_path", text s.mitogen_lxc_info_path)
          ∷ ("machinectl_path", text s.mitogen_machinectl_path)
          ∷ [];
    })

-- `_connect_machinectl`
pub connect_machinectl : Spec → Result Call
unfolding connect_setns
connect_machinectl s = connect_setns (some "machinectl") s
