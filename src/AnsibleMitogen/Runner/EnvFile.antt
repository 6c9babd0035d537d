-- ===== src/AnsibleMitogen/Runner/EnvFile.antt =====
-- mitogen-0.2.9/ansible_mitogen/runner.py: `EnvironmentFileWatcher`, which follows /etc/environment and
-- ~/.pam_environment.
pub mod Merge
mod Tests
use ansible_course.Base.{
  ℕ, Bool, true, false, Text, Option, none, some, List, [], ◌∷◌, ◌++◌, ◌==◌, ◌&&◌, nat_key,
  text_key, if◌then◌else◌,
}
use ansible_course.Base.Lists.{codes}
use ansible_course.Base.Dict.{Dict, get, set_item, del_item}

abbrev pub Environ : Type 0
Environ = Dict Text Text

-- `b(' ').join(bits)`
unfoldable pub join : List Text → Text
join [] = []
join (t ∷ []) = t
join (t ∷ u ∷ ts) = t ++ (b' ' ∷ join (u ∷ ts))

-- `bytes_partition(s, b('='))`, with what stands behind only if there is a separator.
unfoldable pub partition : ℕ → Text → Text × Option Text
partition sep [] = ([], none)
partition sep (c ∷ s) =
    let (before, behind) = partition sep s in
    if c == sep then ([], some s) else (c ∷ before, behind)

abbrev is_comment : Text → Bool
is_comment [] = false
is_comment (c ∷ s) = c == b'#'

-- `if key and sep`
abbrev assignment : Text × Option Text → Option (Text × Text)
assignment ([], behind) = none
assignment (c ∷ key, none) = none
assignment (c ∷ key, some value) = some (c ∷ key, value)

abbrev without_export : Text → List Text → List Text
without_export bit bits = if bit == codes "export" then bits else bit ∷ bits

-- What a line of the file sets, from its words.
pub parse_bits : List Text → Option (Text × Text)
unfolding join partition
parse_bits [] = none
parse_bits (bit ∷ bits) =
    if is_comment bit then none else assignment (partition b'=' (join (without_export bit bits)))

abbrev also : Option (Text × Text) → List (Text × Text) → List (Text × Text)
also none rest = rest
also (some entry) rest = entry ∷ rest

-- `_parse`, over the words that `shlex_split_b` makes of each line.
pub parse : (Text → List Text) → List Text → List (Text × Text)
unfolding parse_bits
parse shlex_split_b [] = []
parse shlex_split_b (line ∷ lines) =
    also (parse_bits (shlex_split_b line)) (parse shlex_split_b lines)

-- The file: what `os.stat` says of it and its lines; or it is not there.
abbrev pub Disk : Type 0
Disk = Option (ℕ × List Text)

pub stat : Disk → Option ℕ
stat none = none
stat (some (st, lines)) = some st

pub load : (Text → List Text) → Disk → List (Text × Text)
unfolding parse
load shlex_split_b none = []
load shlex_split_b (some (st, lines)) = parse shlex_split_b lines

pub record Watcher : Type 0 where
  pub st : Option ℕ
  pub keys : List Text

-- `__init__`: the keys whose values may come from the file.
same_value : Option Text → Text → Bool
same_value none value = false
same_value (some v) value = v == value

pub inherited : Environ → List (Text × Text) → List Text
unfolding same_value
inherited environ [] = []
inherited environ ((key, value) ∷ rest) =
    let keys = inherited environ rest in
    if same_value (get environ key) value then key ∷ keys else keys

pub init : (Text → List Text) → Disk → Environ → Watcher
unfolding stat load inherited
init shlex_split_b disk environ = record {
  st = stat disk;
  keys = inherited environ (load shlex_split_b disk);
}

-- `_remove_existing`
pub remove_existing : List Text → Environ → Environ
remove_existing [] environ = environ
remove_existing (key ∷ keys) environ = remove_existing keys (del_item environ key)

-- `_on_file_changed`: the keys that it sets, in order, and the environment.
abbrev set_new : Text → Text → Option Text → List Text × Environ → List Text × Environ
set_new key value (some old) (keys, environ) = (keys, environ)
set_new key value none (keys, environ) = (keys ++ (key ∷ []), set_item environ key value)

pub on_file_changed : List (Text × Text) → List Text × Environ → List Text × Environ
on_file_changed [] (keys, environ) = (keys, environ)
on_file_changed ((key, value) ∷ rest) (keys, environ) =
    on_file_changed rest (set_new key value (get environ key) (keys, environ))

pub same_stat : Option ℕ → Option ℕ → Bool
same_stat none none = true
same_stat (some a) (some b) = a == b
same_stat _ _ = false

abbrev pub reload : (Text → List Text) → Disk → Environ → Watcher × Environ
reload shlex_split_b disk environ =
    let (keys, after) = on_file_changed (load shlex_split_b disk) ([], environ) in
    (record { st = stat disk; keys = keys }, after)

-- `check`: a file that is gone has nothing to load.
pub check : (Text → List Text) → Disk → Watcher → Environ → Watcher × Environ
unfolding same_stat remove_existing on_file_changed
check shlex_split_b disk w environ =
    if same_stat w.st (stat disk)
    then (w, environ)
    else reload shlex_split_b disk (remove_existing w.keys environ)
