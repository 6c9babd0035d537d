-- ===== src/AnsibleMitogen/Connection/Local/Tests.antt =====
-- mitogen-0.2.9/ansible_mitogen/plugins/connection/mitogen_local.py: a variable that is gone.
use ansible_course.Base.{List, Text, Option, none, some, [], ◌∷◌, ◌≡◌, refl, text_key}
use ansible_course.Base.Lists.{codes}
use ansible_course.Base.Dict.{Dict, get, set_item}
use ansible_course.AnsibleMitogen.Connection.Local.{dict_diff, fill}
use ansible_course.AnsibleMitogen.Connection.Local.Passed.{expected, checked, dict_diff-applied}
use ansible_course.AnsibleMitogen.Runner.EnvFile.{Watcher, Disk}
use ansible_course.AnsibleMitogen.Runner.Process.{update, temporary_environment}

-- `mitogen.core.to_text`
abbrev to_text : Option Text → Option Text
to_text none = some (codes "None")
to_text (some value) = some value

abbrev before : Dict Text Text
before = (codes "A", codes "1") ∷ (codes "B", codes "2") ∷ []

abbrev now : Dict Text Text
now = (codes "B", codes "3") ∷ (codes "C", codes "4") ∷ []

abbrev task : Dict Text (Option Text)
task = (codes "C", some (codes "5")) ∷ []

abbrev watcher : Watcher
watcher = record { st = none; keys = [] }

abbrev etc : Disk
etc = some (3, codes "D=6" ∷ [])

abbrev one_word : Text → List Text
one_word line = line ∷ []

dict_diff-applied_example :
    get
      (temporary_environment to_text
        (update (dict_diff before now) task)
        (checked to_text one_word none etc watcher watcher before))
      (codes "A")
    ≡ expected
        (to_text none)
        (get task (codes "A"))
        (get before (codes "A"))
        (get now (codes "A"))
        (get (checked to_text one_word none etc watcher watcher before) (codes "A"))
unfolding get
dict_diff-applied_example =
    dict_diff-applied to_text one_word none etc watcher watcher before before now task (codes "A")
      (λ value. refl) (refl, tt)

gone_is_none :
    get (temporary_environment to_text (update (dict_diff before now) task) before) (codes "A")
    ≡ some (codes "None")
unfolding get temporary_environment update dict_diff fill set_item
gone_is_none = refl
