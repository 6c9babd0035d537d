-- ===== src/AnsibleMitogen/Strategy.antt =====
-- mitogen-0.2.9/ansible_mitogen/strategy.py: the releases of Ansible that are supported, and what is
-- patched in Ansible while a strategy runs. Ansible's loaders, strategies and workers are parameters.
pub mod Versions
pub mod Undone
pub mod Loaders
mod Tests
use ansible_course.Base.{
  ℕ, suc, ◌+◌, ◌*◌, ◌-◌, Bool, true, false, Text, Option, none, some, List, [], ◌∷◌, ◌++◌, ◌&&◌,
  ◌==◌, ltb, leb, nat_key, if◌then◌else◌,
}
use ansible_course.Base.Lists.{codes}

-- What `LooseVersion` takes apart: runs of digits, runs of small letters, dots, and what is between.
pub data Sort : Type 0 where
  digits letters dot others : Sort

pub sort_of : ℕ → Sort
sort_of c =
    if leb b'0' c && leb c b'9'
    then digits
    else if leb b'a' c && leb c b'z'
    then letters
    else if c == b'.'
    then dot
    else others

abbrev pub joins : Sort → Sort → Bool
joins digits digits = true
joins letters letters = true
joins others others = true
joins _ _ = false

pub join : Sort → ℕ → List (Sort × Text) → List (Sort × Text)
join s c [] = (s, c ∷ []) ∷ []
join s c ((t, run) ∷ runs) =
    if joins s t then (t, c ∷ run) ∷ runs else (s, c ∷ []) ∷ (t, run) ∷ runs

pub runs_of : Text → List (Sort × Text)
unfolding join sort_of
runs_of [] = []
runs_of (c ∷ s) = join (sort_of c) c (runs_of s)

-- `int` of a run of digits.
pub int_from : ℕ → Text → ℕ
int_from acc [] = acc
int_from acc (c ∷ s) = int_from (acc * 10 + (c - b'0')) s

-- An element of `LooseVersion(v).version`.
pub data Part : Type 0 where
  number : ℕ → Part
  word : Text → Part

pub parts_of : List (Sort × Text) → List Part
unfolding int_from
parts_of [] = []
parts_of ((digits, run) ∷ runs) = number (int_from 0 run) ∷ parts_of runs
parts_of ((dot, run) ∷ runs) = parts_of runs
parts_of ((letters, run) ∷ runs) = word run ∷ parts_of runs
parts_of ((others, run) ∷ runs) = word run ∷ parts_of runs

-- How `v[:2]` stands to a pair of numbers; a number and a text have no order.
pub data Place : Type 0 where
  below at above no_order : Place

abbrev against : ℕ → ℕ → Place → Place
against a b next = if ltb a b then below else if ltb b a then above else next

pub place : List Part → ℕ → ℕ → Place
place [] x y = below
place (word w ∷ _) x y = no_order
place (number a ∷ []) x y = against a x below
place (number a ∷ number b ∷ _) x y = against a x (against b y at)
place (number a ∷ word w ∷ _) x y = against a x no_order

pub data Release : Type 0 where
  supported too_old too_recent unordered : Release

abbrev pub not_above : Place → Release
not_above below = supported
not_above at = supported
not_above above = too_recent
not_above no_order = unordered

abbrev pub not_below : Place → Release → Release
not_below below rest = too_old
not_below no_order rest = unordered
not_below at rest = rest
not_below above rest = rest

-- `_assert_supported_release`
pub assert_supported_release : Text → Release
unfolding place runs_of parts_of
assert_supported_release version =
    let v = parts_of (runs_of version) in not_below (place v 2 3) (not_above (place v 2 9))

-- What a loader's `get` is, and what `WorkerProcess.run` is.
pub data Hook : Type 0 where
  original wrapped : Hook

-- The variables that a strategy changes: in Ansible, `strategy.worker__run` and
-- `process._worker_model`. The directories are those given to `add_directory`.
pub record Process : Type 0 where
  pub connection_directories : List Text
  pub action_directories : List Text
  pub action_get : Hook
  pub connection_get : Hook
  pub worker_run : Hook
  pub saved_run : Option Hook
  pub worker_model : Option ℕ
  pub completed : ℕ

-- `AnsibleWrappers.install`
pub install : Text → Process → Process
install base_dir p = record p {
  connection_directories = p.connection_directories ++ ((base_dir ++ codes "/connection") ∷ []);
  action_directories = p.action_directories ++ ((base_dir ++ codes "/action") ∷ []);
  action_get = wrapped;
  connection_get = wrapped;
  saved_run = some p.worker_run;
  worker_run = wrapped;
}

-- How a call ends; `name_error` is the reading of `worker__run` before `install`.
pub data Ends : Type 0 where
  returned : ℕ → Ends
  unsupported type_error assertion_error name_error : Ends
  raised : ℕ → Ends

-- `AnsibleWrappers.remove`, after a call that ended.
abbrev pub put_back : Option Hook → Process × Ends → Process × Ends
put_back none (p, e) = (record p { action_get = original; connection_get = original }, name_error)
put_back (some run) (p, e) =
    (record p { action_get = original; connection_get = original; worker_run = run }, e)

pub remove : Process × Ends → Process × Ends
remove (p, e) = put_back p.saved_run (p, e)

-- `set_worker_model`, where the model is not `None`.
abbrev pub set_over : Option ℕ → ℕ → Process → Option Process
set_over none model p = some (record p { worker_model = some model })
set_over (some _) model p = none

pub set_worker_model : ℕ → Process → Option Process
set_worker_model model p = set_over p.worker_model model p

-- `on_strategy_complete`: whether it raises. It is called with what came before.
pub complete : Option ℕ → Process × Ends → Process × Ends
complete none (p, e) = (record p { completed = suc p.completed }, e)
complete (some x) (p, e) = (record p { completed = suc p.completed }, raised x)

pub unset_worker_model : Process × Ends → Process × Ends
unset_worker_model (p, e) = (record p { worker_model = none }, e)

-- What the run meets: whether `on_strategy_start` and `on_strategy_complete` raise, and the strategy.
pub record Strategy : Type 0 where
  pub base_dir : Text
  pub start : Option ℕ
  pub finish : Option ℕ
  pub play : Process → Process × Ends

-- The body of the outermost `try`.
abbrev pub begun : Option ℕ → Strategy → Process → Process × Ends
begun (some x) s p = (p, raised x)
begun none s p = complete s.finish (remove (s.play (install s.base_dir p)))

pub started : Strategy → Process → Process × Ends
unfolding install remove complete
started s p = begun s.start s p

-- `StrategyMixin.run`
abbrev pub modelled : Strategy → Option Process → Process → Process × Ends
modelled s (some p) q = unset_worker_model (started s p)
modelled s none q = (q, assertion_error)

abbrev pub checked : Release → ℕ → Strategy → Process → Process × Ends
checked supported model s p = modelled s (set_worker_model model p) p
checked too_old model s p = (p, unsupported)
checked too_recent model s p = (p, unsupported)
checked unordered model s p = (p, type_error)

pub run : Text → ℕ → Strategy → Process → Process × Ends
unfolding started unset_worker_model set_worker_model assert_supported_release
run version model s p = checked (assert_supported_release version) model s p
