-- ===== src/AnsibleMitogen/Target/Files/Tests.antt =====
-- mitogen-0.2.9/ansible_mitogen/target.py: a file that is there is given a new content.
use ansible_course.Base.{
  true, false, String, none, some, ◌==◌, ◌≢◌, refl, string_key, if◌then◌else◌,
}
use ansible_course.Base.Lists.{codes}
use text.Mathlib.TextEquality.{eq_iff}
use ansible_course.AnsibleMitogen.Target.Chmod.{text as chmod_text}
use ansible_course.AnsibleMitogen.Target.Files.{
  Fs, Faults, rename, Options, Transfer, write_path, transfer_file,
}
use ansible_course.AnsibleMitogen.Target.Files.Atomic.{IsAtomic, write_path-IsAtomic}

abbrev fs : Fs
fs q = if q == "/etc/motd" then some (record { content = codes "old"; mode = 420 }) else none

-- The disk is full of other files: only the rename raises.
abbrev full : Faults
full rename = true
full _ = false

abbrev options : Options
options = record {
  owned = false;
  mode = some (chmod_text (codes "u=rw,go=r"));
  utimes = false;
  sync = false;
}

abbrev transfer : Transfer
transfer = record { data_ = codes "sent"; ok = true; mode = chmod_text (codes "0644") }

tmp_is_other : ◌≢◌ {A = String} "/etc/.tmp" "/etc/motd"
tmp_is_other = λ e. cc ((eq_iff "/etc/.tmp" "/etc/motd").1 e)

write_path-IsAtomic_example :
    IsAtomic full fs "/etc/.tmp" "/etc/motd" (codes "new") (write_path full options (codes "new"))
    × IsAtomic full fs "/etc/.tmp" "/etc/motd"
        (codes "sent")
        (transfer_file full false false transfer)
write_path-IsAtomic_example =
    write_path-IsAtomic full fs "/etc/.tmp" "/etc/motd" options (codes "new") false false transfer
      tmp_is_other refl
