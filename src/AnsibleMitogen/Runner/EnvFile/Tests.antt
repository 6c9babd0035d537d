-- ===== src/AnsibleMitogen/Runner/EnvFile/Tests.antt =====
-- mitogen-0.2.9/ansible_mitogen/runner.py: a file that sets a proxy and a variable that is there.
use ansible_course.Base.{Text, some, List, [], ◌∷◌, ◌≡◌, refl, text_key, nat_key}
use ansible_course.Base.Lists.{codes, split}
use ansible_course.AnsibleMitogen.Runner.EnvFile.{Environ, Disk, Watcher, parse_bits}

abbrev words : Text → List Text
words = split b' '

abbrev disk : Disk
disk = some (2, codes "export proxy=local" ∷ codes "HOME=/" ∷ [])

abbrev watcher : Watcher
watcher = record { st = some 1; keys = codes "old" ∷ [] }

abbrev environ : Environ
environ = (codes "HOME", codes "/root") ∷ (codes "old", codes "1") ∷ []

exported :
    parse_bits (codes "export" ∷ codes "proxy=local" ∷ []) ≡ some (codes "proxy", codes "local")
unfolding parse_bits
exported = refl
