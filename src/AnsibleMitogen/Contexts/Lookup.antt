-- ===== src/AnsibleMitogen/Contexts/Lookup.antt =====
-- mitogen-0.2.9/ansible_mitogen/services.py: the key of a request, `ContextService.get` over a stack, and
-- `ModuleDepService`.
mod Tests
use ansible_course.Base.{
  Bool, true, false, Text, String, Option, none, some, List, [], ◌∷◌, ◌++◌, ◌==◌, ◌&&◌, nat_key,
  string_key, if◌then◌else◌,
}
use ansible_course.Base.Lists.{codes}
use ansible_course.AnsibleMitogen.Contexts.{Context, Service}

-- An argument of `key_from_dict`: a text (of any other object, `str` of it), a list or a tuple, or a
-- dictionary with its items sorted.
mutual
  pub data Object : Type 0 where
    str : Text → Object
    sequence : Objects → Object
    dict : Items → Object

  pub data Objects : Type 0 where
    nil : Objects
    cons : Object → Objects → Objects

  pub data Items : Type 0 where
    no_items : Items
    item : Text → Object → Items → Items

-- `key_from_dict`: what is pushed last is taken from the stack first, so the last item comes first,
-- and of an item the value.
mutual
  pub key_of : Object → Text
  key_of (str s) = s
  key_of (sequence objects) = keys_of objects
  key_of (dict items) = items_of items

  pub keys_of : Objects → Text
  keys_of nil = []
  keys_of (cons o objects) = keys_of objects ++ key_of o

  pub items_of : Items → Text
  items_of no_items = []
  items_of (item key value items) = items_of items ++ (key_of value ++ key)

pub key_from_dict : Items → Text
unfolding items_of
key_from_dict kwargs = items_of kwargs

-- What `_wait_or_start(spec, via).get()` comes to: a context, an error of the channel, of the stream
-- with its text, or another exception.
pub data Waited : Type 0 where
  got : Context → Waited
  channel_error : Waited
  stream_error : Text → Waited
  other_error : Waited

-- What `get` answers: the context of the last hop; no context, with the method that failed and a
-- message; or it raises.
pub data Answer {ℓ} (Spec : Type ℓ) : Type ℓ where
  context : Context → Answer Spec
  no_context : Spec → Text → Answer Spec
  raises : Answer Spec

abbrev pub disconnect_msg : Text
disconnect_msg =
    codes
      "Channel was disconnected while connection attempt was in progress; this may be caused by an abnormal Ansible exit, or due to an unreliable target."

module _ {ℓ} {Spec : Type ℓ}
    (wait_or_start : Option Context → Spec → Service → Service × Waited) where
  -- `get`, over the first hop and the others.
  abbrev pub answered :
      Spec → (Context → Service → Service × Answer Spec) → Service × Waited → Service × Answer Spec
  answered spec next (s, got c) = next c s
  answered spec next (s, channel_error) = (s, no_context spec disconnect_msg)
  answered spec next (s, stream_error e) = (s, no_context spec e)
  answered spec next (s, other_error) = (s, raises)

  pub get : Option Context → Spec → List Spec → Service → Service × Answer Spec
  get via spec [] s = answered spec (λ c t. (t, context c)) (wait_or_start via spec s)
  get via spec (hop ∷ stack) s =
      answered spec (λ c t. get (some c) hop stack t) (wait_or_start via spec s)

-- A module that `module_finder.scan` resolved: its name, the path it was found at, whether it is a package.
pub record Resolved : Type 0 where
  pub fullname : Text
  pub path : Text
  pub is_pkg : Bool

unfoldable pub begins_with : Text → Text → Bool
begins_with [] path = true
begins_with (c ∷ prefix) [] = false
begins_with (c ∷ prefix) (d ∷ path) = (c == d) && begins_with prefix path

-- `_get_builtin_names` and `_get_custom_tups`: the test is on the absolute path, and what is answered has
-- the path as it was found.
unfoldable pub get_builtin_names : (Text → Text) → Text → List Resolved → List Text
unfolding begins_with
get_builtin_names abspath builtin_path [] = []
get_builtin_names abspath builtin_path (r ∷ resolved) =
    let names = get_builtin_names abspath builtin_path resolved in
    if begins_with builtin_path (abspath r.path) then r.fullname ∷ names else names

unfoldable pub get_custom_tups : (Text → Text) → Text → List Resolved → List Resolved
unfolding begins_with
get_custom_tups abspath builtin_path [] = []
get_custom_tups abspath builtin_path (r ∷ resolved) =
    let tups = get_custom_tups abspath builtin_path resolved in
    if begins_with builtin_path (abspath r.path) then tups else r ∷ tups
