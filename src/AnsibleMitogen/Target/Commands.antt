-- ===== src/AnsibleMitogen/Target/Commands.antt =====
-- mitogen-0.2.9/ansible_mitogen/target.py: commands that are executed for the controller.
use ansible_course.Base.{
  ℕ, Bool, Text, Option, none, some, List, [], ◌∷◌, ◌==◌, nat_key, if◌then◌else◌,
}
use ansible_course.Base.Lists.{codes}

-- `get_user_shell`, where `pwd` knows the user or not.
abbrev or_sh : Text → Text
or_sh [] = codes "/bin/sh"
or_sh (c ∷ shell) = c ∷ shell

pub get_user_shell : Option Text → Text
get_user_shell none = codes "/bin/sh"
get_user_shell (some pw_shell) = or_sh pw_shell

-- `stdout.replace(b('\n'), b('\r\n'))`
pub to_crlf : Text → Text
to_crlf [] = []
to_crlf (c ∷ s) = let rest = to_crlf s in if c == 10 then 13 ∷ 10 ∷ rest else c ∷ rest

-- What a process gave: its code and what it wrote to each of the two pipes, `none` for no pipe.
pub record Output : Type 0 where
  pub returncode : ℕ
  pub stdout : Text
  pub stderr : Option Text

abbrev or_empty : Option Text → Text
or_empty none = []
or_empty (some s) = s

-- `exec_args`: how the process is started (whether standard error goes to standard output), and what
-- it gives.
pub exec_args : (List Text → Bool → Output) → List Text → Bool → ℕ × Text × Text
unfolding to_crlf
exec_args popen args emulate_tty =
    let o = popen args emulate_tty in
    (o.returncode, if emulate_tty then to_crlf o.stdout else o.stdout, or_empty o.stderr)

-- `exec_command`
pub exec_command : (List Text → Bool → Output) → Option Text → Text → Bool → ℕ × Text × Text
unfolding exec_args get_user_shell
exec_command popen pw_shell cmd emulate_tty =
    exec_args popen (get_user_shell pw_shell ∷ codes "-c" ∷ cmd ∷ []) emulate_tty
