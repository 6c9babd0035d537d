-- ===== src/AnsibleMitogen/Workers.antt =====
-- mitogen-0.2.9/ansible_mitogen/process.py: which multiplexer process a worker is connected to, for the
-- host of a task, and the limit of open files.
pub mod Bound
pub mod Muxes
mod Tests
use ansible_course.Base.{
  ℕ, zero, suc, ◌%◌, Bool, true, false, String, Option, none, some, List, [], ◌∷◌, ◌==◌, leb,
  string_key, if◌then◌else◌,
}
use ansible_course.Base.Lists.{length}

-- `ClassicWorkerModel` in a worker: `parent` is the path that the router and the parent context are
-- connected to.
pub record Worker : Type 0 where
  pub broker : Bool
  pub parent : Option String
  pub listener_path : Option String

pub unbound : Worker
unbound = record { broker = false; parent = none; listener_path = none }

-- `_listener_for_name`: of the multiplexers, a first and others, the one that the hash of the name picks.
pub pick : ℕ → String → List String → String
pick zero path paths = path
pick (suc n) path [] = path
pick (suc n) path (next ∷ paths) = pick n next paths

pub listener_for_name : (String → ℕ) → String → List String → String → String
unfolding pick
listener_for_name hash path paths name = pick (hash name % length (path ∷ paths)) path paths

-- `_reconnect`, with whether `unix.connect` connects, and whether it returns.
pub reconnect : Bool → String → Worker → Worker × Bool
reconnect connects path w =
    if connects
    then (record w { parent = some path; listener_path = some path }, true)
    else (record w { parent = none }, false)

abbrev pub same_listener : Option String → String → Bool
same_listener none path = false
same_listener (some listener) path = path == listener

-- `get_binding`, for the path of the host's listener.
abbrev pub bind_at : Bool → String → Worker → Worker × Bool
bind_at connects path w =
    if same_listener w.listener_path path
    then (record w { broker = true }, true)
    else reconnect connects path (record w { broker = true })

pub get_binding : (String → ℕ) → String → List String → Bool → String → Worker → Worker × Bool
unfolding listener_for_name reconnect
get_binding hash path paths connects name w =
    bind_at connects (listener_for_name hash path paths name) w

-- `on_binding_close`
pub on_binding_close : Worker → Worker
unfolding unbound
on_binding_close w = if w.broker then unbound else w

-- `increase_open_file_limit`: the soft limit afterwards, where `none` is no hard limit and a call of
-- `setrlimit` may raise `ValueError`.
abbrev cap : Option ℕ → ℕ
cap none = 524288
cap (some hard) = hard

pub increase_open_file_limit : (ℕ → Bool) → ℕ → Option ℕ → ℕ
increase_open_file_limit setrlimit soft hard =
    if leb (cap hard) soft
    then soft
    else if setrlimit (cap hard)
    then cap hard
    else if setrlimit 10240
    then 10240
    else soft
