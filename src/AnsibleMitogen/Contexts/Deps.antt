-- ===== src/AnsibleMitogen/Contexts/Deps.antt =====
-- mitogen-0.2.9/ansible_mitogen/services.py: `ModuleDepService.scan` and its cache.
pub mod Firsts
mod Tests
use ansible_course.Base.{
  Bool, true, false, Text, Option, none, some, List, [], ◌∷◌, ◌++◌, ◌==◌, ◌&&◌, ◌≡◌, ◌↔◌, refl,
  arith, Key, text_key, text_same_iff,
}
use ansible_course.Base.Dict.{Dict, get, set_item}
use ansible_course.AnsibleMitogen.Contexts.Lookup.{Resolved, get_builtin_names, get_custom_tups}

pub record Request : Type 0 where
  pub module_name : Text
  pub module_path : Text
  pub search_path : List Text
  pub builtin_path : Text

-- The key of the cache: the name and the search path.
abbrev pub ScanKey : Type 0
ScanKey = Text × List Text

abbrev pub same_path : List Text → List Text → Bool
same_path [] [] = true
same_path [] (_ ∷ _) = false
same_path (_ ∷ _) [] = false
same_path (s ∷ ss) (t ∷ ts) = (s == t) && same_path ss ts

same_path_iff : (ss ts : List Text) → (same_path ss ts ≡ true) ↔ (ss ≡ ts)
same_path_iff [] [] = (λ _. refl, λ _. refl)
same_path_iff [] (t ∷ ts) = ground arith
same_path_iff (s ∷ ss) [] = ground arith
same_path_iff (s ∷ ss) (t ∷ ts) = ground (arith, text_same_iff s t, same_path_iff ss ts)

abbrev pub same_key : ScanKey → ScanKey → Bool
same_key (m, ss) (n, ts) = (m == n) && same_path ss ts

pub same_key_iff : (j k : ScanKey) → (same_key j k ≡ true) ↔ (j ≡ k)
same_key_iff (m, ss) (n, ts) = ground (arith, text_same_iff m n, same_path_iff ss ts)

instance abbrev pub scan_key : Key ScanKey
scan_key = record { same = same_key; same_iff = same_key_iff }

abbrev pub key_of : Request → ScanKey
key_of r = (r.module_name, r.search_path)

-- What is cached and answered.
pub record Deps : Type 0 where
  pub builtin : List Text
  pub custom : List Resolved

abbrev pub Cache : Type 0
Cache = Dict ScanKey Deps

module _ (resolve : Text → Text → List Text → List Resolved) (abspath : Text → Text) where
  -- The scan of a module, with the absolute path of the builtin modules.
  unfoldable pub fresh : Request → Deps
  unfolding get_builtin_names get_custom_tups
  fresh r =
      let resolved = resolve r.module_name r.module_path (r.search_path ++ (r.builtin_path ∷ [])) in
      record {
        builtin = get_builtin_names abspath (abspath r.builtin_path) resolved;
        custom = get_custom_tups abspath (abspath r.builtin_path) resolved;
      }

  abbrev pub answer : Request → Option Deps → Cache → Deps × Cache
  answer r (some d) cache = (d, cache)
  answer r none cache = (fresh r, set_item cache (key_of r) (fresh r))

  -- `scan`
  unfoldable pub scan : Request → Cache → Deps × Cache
  unfolding fresh get set_item
  scan r cache = answer r (get cache (key_of r)) cache

  unfoldable pub scan_all : List Request → Cache → List Deps
  unfolding scan
  scan_all [] cache = []
  scan_all (r ∷ rs) cache = let (d, next) = scan r cache in d ∷ scan_all rs next
