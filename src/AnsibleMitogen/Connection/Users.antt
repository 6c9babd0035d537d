-- ===== src/AnsibleMitogen/Connection/Users.antt =====
-- mitogen-0.2.9/ansible_mitogen/connection.py: hops to another user.
use ansible_course.Base.{true, false, some, [], ◌∷◌, string_key}
use ansible_course.AnsibleMitogen.Transport.{Spec}
use ansible_course.AnsibleMitogen.Connection.{text, words, hidden, Call, get_remote_name}

-- `_connect_su`
pub connect_su : Spec → Call
unfolding get_remote_name
connect_su s = record {
  method = "su";
  enable_lru = true;
  kwargs =
      ("username", text s.become_user)
      ∷ ("password", hidden s.become_pass)
      ∷ ("python_path", words s.python_path)
      ∷ ("su_path", text s.become_exe)
      ∷ ("connect_timeout", text s.timeout)
      ∷ ("remote_name", get_remote_name s)
      ∷ [];
}

-- `_connect_sudo`
pub connect_sudo : Spec → Call
unfolding get_remote_name
connect_sudo s = record {
  method = "sudo";
  enable_lru = true;
  kwargs =
      ("username", text s.become_user)
      ∷ ("password", hidden s.become_pass)
      ∷ ("python_path", words s.python_path)
      ∷ ("sudo_path", text s.become_exe)
      ∷ ("connect_timeout", text s.timeout)
      ∷ ("sudo_args", words (some s.sudo_args))
      ∷ ("remote_name", get_remote_name s)
      ∷ [];
}

-- `_connect_doas`
pub connect_doas : Spec → Call
unfolding get_remote_name
connect_doas s = record {
  method = "doas";
  enable_lru = true;
  kwargs =
      ("username", text s.become_user)
      ∷ ("password", hidden s.become_pass)
      ∷ ("python_path", words s.python_path)
      ∷ ("doas_path", text s.become_exe)
      ∷ ("connect_timeout", text s.timeout)
      ∷ ("remote_name", get_remote_name s)
      ∷ [];
}

-- `_connect_mitogen_su`
pub connect_mitogen_su : Spec → Call
unfolding get_remote_name
connect_mitogen_su s = record {
  method = "su";
  enable_lru = false;
  kwargs =
      ("username", text s.remote_user)
      ∷ ("password", hidden s.password)
      ∷ ("python_path", words s.python_path)
      ∷ ("su_path", text s.become_exe)
      ∷ ("connect_timeout", text s.timeout)
      ∷ ("remote_name", get_remote_name s)
      ∷ [];
}

-- `_connect_mitogen_sudo`
pub connect_mitogen_sudo : Spec → Call
unfolding get_remote_name
connect_mitogen_sudo s = record {
  method = "sudo";
  enable_lru = false;
  kwargs =
      ("username", text s.remote_user)
      ∷ ("password", hidden s.password)
      ∷ ("python_path", words s.python_path)
      ∷ ("sudo_path", text s.become_exe)
      ∷ ("connect_timeout", text s.timeout)
      ∷ ("sudo_args", words (some s.sudo_args))
      ∷ ("remote_name", get_remote_name s)
      ∷ [];
}

-- `_connect_mitogen_doas`
pub connect_mitogen_doas : Spec → Call
unfolding get_remote_name
connect_mitogen_doas s = record {
  method = "doas";
  enable_lru = false;
  kwargs =
      ("username", text s.remote_user)
      ∷ ("password", hidden s.password)
      ∷ ("python_path", words s.python_path)
      ∷ ("doas_path", text s.ansible_doas_exe)
      ∷ ("connect_timeout", text s.timeout)
      ∷ ("remote_name", get_remote_name s)
      ∷ [];
}
