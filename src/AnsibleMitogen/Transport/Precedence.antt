-- ===== src/AnsibleMitogen/Transport/Precedence.antt =====
-- mitogen-0.2.9/ansible_mitogen/transport_config.py: which of several settings a connection gets.
use text.Mathlib.TextEquality.{eq_iff}
use ansible_course.Base.{
  true, false, String, Option, none, some, List, [], ◌∷◌, ◌==◌, ◌≡◌, refl, ap, arith, string_key,
  Bool-cases, inl, inr,
}
use ansible_course.Base.Dict.{get}
use ansible_course.AnsibleMitogen.Transport.{
  truthy, ◌or◌, first_true, Shlex, or_empty, parse_python_path,
}
use ansible_course.AnsibleMitogen.Transport.Play
use ansible_course.AnsibleMitogen.Transport.Via
use ansible_course.AnsibleMitogen.Transport.Via.{var}

-- `v` is the choice among settings in order of precedence, with a default behind them: the first
-- that is neither missing nor empty, or else the default.
pub data Chosen (default : Option String) : List (Option String) → Option String → Type 0 where
  set_here :
      {v : Option String} {rest : List (Option String)}
      → truthy v ≡ true
      → Chosen default (v ∷ rest) v
  set_later :
      {u v : Option String} {rest : List (Option String)}
      → truthy u ≡ false
      → Chosen default rest v
      → Chosen default (u ∷ rest) v
  left_out : {v : Option String} → v ≡ default → Chosen default [] v

or-Chosen :
    (default u v : Option String) (rest : List (Option String))
    → Chosen default rest v
    → Chosen default (u ∷ rest) (u or v)
or-Chosen default u v rest c = elim (Bool-cases (truthy u)) [
  | inl t ↦ rw t (set_here t)
  | inr f ↦ rw f (set_later f c)
]

first_true-Chosen :
    (default : Option String) (vs : List (Option String))
    → Chosen default vs (first_true vs default)
unfolding first_true
first_true-Chosen default [] = left_out refl
first_true-Chosen default (v ∷ vs) =
    or-Chosen default v (first_true vs default) vs (first_true-Chosen default vs)

last-Chosen : (u d : Option String) → Chosen d (u ∷ []) (u or d)
last-Chosen u d = or-Chosen d u d [] (left_out refl)

two-Chosen : (u v d : Option String) → Chosen d (u ∷ v ∷ []) (u or (v or d))
two-Chosen u v d = or-Chosen d u (v or d) (v ∷ []) (last-Chosen v d)

-- For an intermediary host, each of these is the first of its variables that is neither missing nor
-- empty, and else its default: the address (by default the inventory name), the user, the port, the
-- key file, the become method (the one of the `mitogen_via=` setting first) and the timeout.
pub via_spec_precedence :
    (s : Via.Source)
    → let c = Via.spec s in
      Chosen
        (some s.inventory_name)
        (var s "ansible_ssh_host" ∷ var s "ansible_host" ∷ [])
        c.remote_addr
      × Chosen s.constants.default_remote_user
          (var s "ansible_ssh_user" ∷ var s "ansible_user" ∷ [])
          c.remote_user
      × Chosen s.constants.default_remote_port
          (var s "ansible_ssh_port" ∷ var s "ansible_port" ∷ [])
          c.port
      × Chosen s.constants.default_private_key_file
          (var s "ansible_ssh_private_key_file" ∷ var s "ansible_private_key_file" ∷ [])
          c.private_key_file
      × Chosen s.constants.default_become_method
          (s.become_method ∷ var s "ansible_become_method" ∷ [])
          c.become_method
      × Chosen s.constants.default_timeout
          (var s "ansible_timeout" ∷ var s "ansible_ssh_timeout" ∷ [])
          c.ansible_ssh_timeout
unfolding Via.spec
via_spec_precedence s = (
  two-Chosen _ _ _,
  two-Chosen _ _ _,
  two-Chosen _ _ _,
  two-Chosen _ _ _,
  two-Chosen _ _ _,
  two-Chosen _ _ _,
)

text-or_empty : (f : Option String) → Play.flags_text f ≡ or_empty f
text-or_empty none = refl
text-or_empty (some t) = elim (Bool-cases (t == "")) [
  | inl empty ↦ rw (empty, or_empty) ((eq_iff t "").0 empty)
  | inr full ↦ rw (full, or_empty) refl
]

-- For the target of a task, the arguments of sudo are the words of one text: of the become flags, the
-- sudo flags and the two configured defaults, the first that is neither missing nor empty, and of
-- the empty text if there is none.
pub play_spec-sudo_args :
    (s : Play.Source)
    → (flags : Option String) × Chosen
        (some "")
        (s.play_context.become_flags ∷ s.play_context.sudo_flags ∷ s.constants.default_become_flags
          ∷ s.constants.default_sudo_flags ∷ [])
        flags
      × ((Play.spec s).sudo_args ≡ s.shlex.split (or_empty flags))
unfolding Play.spec Play.sudo_args Play.sudo_flags
play_spec-sudo_args s =
    (Play.sudo_flags s, first_true-Chosen _ _, ap s.shlex.split (text-or_empty (Play.sudo_flags s)))

interpreter_split :
    (shlex : Shlex) (v : Option String)
    → (path : String) × Chosen (some "/usr/bin/python") (v ∷ []) (some path)
      × (parse_python_path shlex (v or some "/usr/bin/python") ≡ some (shlex.split path))
unfolding parse_python_path
interpreter_split shlex none = ("/usr/bin/python", set_later refl (left_out refl), refl)
interpreter_split shlex (some t) = elim (Bool-cases (t == "")) [
  | inl empty ↦ (
    "/usr/bin/python",
    set_later (ground (arith, empty)) (left_out refl),
    rw (empty, parse_python_path) refl,
  )
  | inr full ↦ (t, set_here (ground (arith, full)), rw (full, parse_python_path) (rw full refl))
]

-- Both kinds of connection always have a command for the remote Python: the words of the
-- interpreter that is set, or of /usr/bin/python if none is.
pub spec-python_path :
    (p : Play.Source) (v : Via.Source)
    → ((path : String) × Chosen
          (some "/usr/bin/python")
          (p.task_var "ansible_python_interpreter" ∷ [])
          (some path)
        × ((Play.spec p).python_path ≡ some (p.shlex.split path)))
      × ((path : String) × Chosen
            (some "/usr/bin/python")
            (var v "ansible_python_interpreter" ∷ [])
            (some path)
          × ((Via.spec v).python_path ≡ some (v.shlex.split path)))
unfolding Play.spec Via.spec
spec-python_path p v = (interpreter_split p.shlex _, interpreter_split v.shlex _)

-- If splitting `None` raises, and neither the host nor the environment sets common SSH arguments, then
-- the SSH arguments of an intermediary host raise, whatever else is set: the test for a missing
-- value comes after the split.
pub via_spec-ssh_args_raises :
    (s : Via.Source)
    → s.shlex.split_none ≡ none
    → var s "ansible_ssh_common_args" ≡ none
    → get s.environ "ANSIBLE_SSH_COMMON_ARGS" ≡ none
    → (Via.spec s).ssh_args ≡ none
unfolding Via.spec
via_spec-ssh_args_raises s n a b = ground (arith, n, a, b)
