-- ===== src/AnsibleMitogen/Runner/EnvFile/Merge.antt =====
-- mitogen-0.2.9/ansible_mitogen/runner.py: what a check of an environment file does to each variable.
use ansible_course.Base.{Bool, false, Text, Option, none, some, nat_key, text_key, if◌then◌else◌}
use ansible_course.Base.Lists.{contains}
use ansible_course.Base.Dict.{get, is_some}
use ansible_course.AnsibleMitogen.Runner.EnvFile.{Environ, Watcher}

-- What a variable is, if it is there, and else what the file sets it to first.
abbrev pub or_else : Option Text → Option Text → Option Text
or_else (some v) file = some v
or_else none file = file

-- Whether a check tracks a variable: the file sets it and nothing else did.
abbrev pub from_file : Option Text → Option Text → Bool
from_file (some _) file = false
from_file none file = is_some file

-- What a variable is without what an older file set.
abbrev pub without_file : Watcher → Environ → Text → Option Text
without_file w environ k = if contains w.keys k then none else get environ k
