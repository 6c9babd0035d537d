-- ===== src/AnsibleMitogen/Connection/Stack/Seen.antt =====
-- mitogen-0.2.9/ansible_mitogen/connection.py: each host of a chain is one of the inventory, and new.
use ansible_course.Base.{
  ℕ, suc, ◌≤◌, ◌<◌, true, false, String, Option, none, some, List, [], ◌∷◌, ◌++◌, ◌||◌, ◌==◌, ◌≡◌,
  refl, ap, ◌∙◌, sym, arith, string_key, Bool-cases, inl, inr, if◌then◌else◌,
}
use text.Mathlib.TextEquality.{eq_iff}
use ansible_course.Base.Lists.{contains, length}
use ansible_course.Base.Dict.{Dict, get, is_some}
use ansible_course.AnsibleMitogen.Transport.{Spec}
use ansible_course.AnsibleMitogen.Transport.Via
use ansible_course.AnsibleMitogen.Connection.{Result, ok, err, Env, via_cycle}
use ansible_course.AnsibleMitogen.Connection.Stack.{
  rpartition, Hosts, via_spec, spec_from_via, Behind, direct, through, behind, behind_text,
}

-- How many hosts have not been seen.
abbrev pub unseen : Hosts → List String → ℕ
unseen [] seen = 0
unseen ((k, _) ∷ hosts) seen =
    let rest = unseen hosts seen in if contains seen k then rest else suc rest

contains-last :
    (seen : List String) (n k : String)
    → contains (seen ++ (n ∷ [])) k ≡ (contains seen k || (n == k))
unfolding contains
contains-last [] n k = ground arith
contains-last (s ∷ seen) n k = ground (arith, contains-last seen n k)

pub unseen-le : (hosts : Hosts) (seen : List String) → unseen hosts seen ≤ length hosts
unseen-le [] seen = omega arith
unseen-le ((k, v) ∷ hosts) seen = ground (arith, unseen-le hosts seen)

unseen-last :
    (hosts : Hosts) (seen : List String) (n : String)
    → unseen hosts (seen ++ (n ∷ [])) ≤ unseen hosts seen
unseen-last [] seen n = omega arith
unseen-last ((k, v) ∷ hosts) seen n =
    ground (arith, unseen-last hosts seen n, contains-last seen n k)

pub unseen-lt :
    (hosts : Hosts) (seen : List String) (n : String)
    → is_some (get hosts n) ≡ true
    → contains seen n ≡ false
    → unseen hosts (seen ++ (n ∷ [])) < unseen hosts seen
unfolding get
unseen-lt [] seen n h c = ground (arith, h)
unseen-lt ((k, v) ∷ hosts) seen n h c = ground (
  arith,
  h,
  c,
  unseen-lt hosts seen n,
  unseen-last hosts seen n,
  contains-last seen n k,
  eq_iff k n,
  eq_iff n k,
)

via_listed :
    (env : Env) (hosts : Hosts) (n method user : String) (vars : Option (Dict String String))
    (via : Spec)
    → get hosts n ≡ vars
    → via_spec env n method user vars ≡ ok via
    → is_some (get hosts via.inventory_name) ≡ true
unfolding via_spec Via.spec
via_listed env hosts n method user none via g e = cc e
via_listed env hosts n method user (some vars) via g e =
    ap (λ m. is_some (get hosts m)) (sym (ap name_of e)) ∙ ap is_some g
  where
    name_of : Result Spec → String
    name_of (ok s) = s.inventory_name
    name_of (err _) = ""

spec_from_via-listed :
    (env : Env) (hosts : Hosts) (text : String) (via : Spec)
    → spec_from_via env hosts text ≡ ok via
    → is_some (get hosts via.inventory_name) ≡ true
unfolding spec_from_via
spec_from_via-listed env [] text via e = cc e
spec_from_via-listed env (h ∷ hosts) text via e =
    via_listed env (h ∷ hosts) (rpartition b'@' text).1 _ _ _ via refl e

abbrev through_ok : Behind → Result Spec
through_ok direct = err via_cycle
through_ok (through r) = r

behind_text-listed :
    (env : Env) (hosts : Hosts) (via_text : Option String) (via : Spec)
    → behind_text env hosts via_text ≡ through (ok via)
    → is_some (get hosts via.inventory_name) ≡ true
unfolding behind_text
behind_text-listed env hosts none via e = cc e
behind_text-listed env hosts (some text) via e = elim (Bool-cases (text == "")) [
  | inl t ↦ cc (rw t at e)
  | inr f ↦ spec_from_via-listed env hosts text via (ap through_ok (rw f at e))
]

pub behind-listed :
    (env : Env) (hosts : Hosts) (spec via : Spec)
    → behind env hosts spec ≡ through (ok via)
    → is_some (get hosts via.inventory_name) ≡ true
unfolding behind
behind-listed env hosts spec via e = behind_text-listed env hosts spec.mitogen_via via e
