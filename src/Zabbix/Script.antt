-- ===== src/Zabbix/Script.antt =====
-- zabbix/zabbix.py: how a run of the script ends.
use mathlib.Core.Path.{subst}
use ansible_course.Base.{
  Bool, true, false, Option, none, String, ◌≡◌, ◌↔◌, [], ◌⊎◌, refl, arith, ◌&&◌, Bool-cases, inl,
  inr, if◌then◌else◌, string_key,
}
use ansible_course.Base.Dict.{Dict, get}
use ansible_course.Zabbix.{
  Result, ok, Entry, Settings, Options, Files, printed, truthy, read_settings, init,
}

-- An option of the file in the working directory, or if there is none, of the one beside the script.
abbrev pub configured : Files → String → Option String
configured files name =
    if files.exists "./zabbix.ini"
    then get (files.section "./zabbix.ini") name
    else if files.exists files.beside_script
    then get (files.section files.beside_script) name
    else none

abbrev pub settings_of : Files → Settings
settings_of files = record {
  server = configured files "server";
  username = configured files "username";
  password = configured files "password";
}

read_settings_lem : (files : Files) → read_settings files ≡ settings_of files
unfolding read_settings get
read_settings_lem files = elim (Bool-cases (files.exists "./zabbix.ini")) [
  | inl here ↦ rw (here, here) refl
  | inr away ↦ elim (Bool-cases (files.exists files.beside_script)) [
    | inl beside ↦ rw (away, beside) refl
    | inr nowhere ↦ rw (away, nowhere) refl
  ]
]

module _ (login : Settings → Bool) (listing : Settings → Result (Dict String Entry))
    (options : Options) where
  -- A server and a user, neither empty, and a login that the API accepts.
  abbrev pub is_ready : Settings → Bool
  is_ready s = (truthy s.server && truthy s.username) && login s

  -- When a run with some settings prints a dictionary, and when it ends with a status.
  abbrev pub Prints : Settings → Dict String Entry → Type 0
  Prints s d =
      (is_ready s ≡ true)
      × (((truthy options.host ≡ true) × (d ≡ []))
          ⊎ ((truthy options.host ≡ false) × (options.list ≡ true) × (listing s ≡ ok d)))

  printed_iff :
      (files : Files) (d : Dict String Entry)
      → (init login listing files options ≡ printed d) ↔ Prints (read_settings files) d
  unfolding init
  printed_iff files d = (λ e. ground arith, λ h. ground arith)

  -- A run prints a dictionary exactly if `server` and `username` are set and not empty, the login with
  -- them and `password` is accepted, and either a host is asked for and the dictionary is empty, or no host
  -- is asked for, `--list` is given and the dictionary is what `get_list` answers. Each of the three is the
  -- option of its own name in `./zabbix.ini`, or if there is no such file, in the one beside the script.
  pub init-printed_iff :
      (files : Files) (d : Dict String Entry)
      → (init login listing files options ≡ printed d) ↔ Prints (settings_of files) d
  init-printed_iff files d =
      subst (λ s. (init login listing files options ≡ printed d) ↔ Prints s d)
        (read_settings_lem files) (printed_iff files d)
