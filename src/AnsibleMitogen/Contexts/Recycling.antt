-- ===== src/AnsibleMitogen/Contexts/Recycling.antt =====
-- mitogen-0.2.9/ansible_mitogen/services.py: which context makes room when a `via` is full.
use mathlib.Core.List.{Mem, mem-append, mem-cons}
use mathlib.Core.Logic.Or
use ansible_course.Base.{
  ℕ, zero, suc, ◌≤◌, ◌<◌, false, Option, none, some, List, [], ◌∷◌, ◌++◌, ◌==◌, ◌≡◌, ◌⊎◌, refl, ap,
  reverse, arith, ltb, ltb→lt, nat_key, string_key, if◌then◌else◌, Bool-cases, inl, inr,
}
use ansible_course.Base.Lists.{length, All}
use ansible_course.Base.Dict.{Dict, get, set_item}
use ansible_course.AnsibleMitogen.Contexts.{
  Context, Service, Outcome, done, key_error, shutdown, update_lru, find_idle, Search, idle,
  all_in_use, no_count, evict, or_nil,
}

-- A count above 0.
abbrev pub InUse : Dict Context ℕ → Context → Type 0
InUse refs c = (n : ℕ) × (get refs c ≡ some (suc n))

-- The search stops at the first context of the list that has no use, or no count.
abbrev pub Found : Dict Context ℕ → List Context → Search → Type 0
Found refs cs (idle c) =
    (newer : List Context) × (older : List Context) × (cs ≡ newer ++ (c ∷ older))
    × All (InUse refs) newer
    × (get refs c ≡ some 0)
Found refs cs all_in_use = All (InUse refs) cs
Found refs cs no_count =
    (newer : List Context) × (c : Context) × (older : List Context) × (cs ≡ newer ++ (c ∷ older))
    × All (InUse refs) newer
    × (get refs c ≡ none)

Found-cons :
    (refs : Dict Context ℕ) (c : Context) (cs : List Context) (found : Search)
    → InUse refs c
    → Found refs cs found
    → Found refs (c ∷ cs) found
Found-cons refs c cs (idle d) busy (newer, older, e, all, z) =
    (c ∷ newer, older, ap (λ l. c ∷ l) e, (busy, all), z)
Found-cons refs c cs all_in_use busy all = (busy, all)
Found-cons refs c cs no_count busy (newer, d, older, e, all, z) =
    (c ∷ newer, d, older, ap (λ l. c ∷ l) e, (busy, all), z)

suc_not_zero : (m : ℕ) → (suc m == 0) ≡ false
suc_not_zero m = ground arith

find_idle-Found : (refs : Dict Context ℕ) (cs : List Context) → Found refs cs (find_idle refs cs)
unfolding find_idle
find_idle-Found refs [] = tt
find_idle-Found refs (c ∷ cs) = go (get refs c) refl (find_idle-Found refs cs)
  where
    go :
        (n : Option ℕ)
        → get refs c ≡ n
        → Found refs cs (find_idle refs cs)
        → Found refs
            (c ∷ cs)
            (elim n [ none ↦ no_count | some m ↦ if m == 0 then idle c else find_idle refs cs ])
    go none e ih = ([], c, cs, refl, tt, e)
    go (some zero) e ih = ([], cs, refl, tt, e)
    go (some (suc m)) e ih =
        rw (suc_not_zero m) (Found-cons refs c cs (find_idle refs cs) (m, e) ih)

-- The tables when the search begins.
abbrev pub listed : Context → Context → Service → Service
listed new via s = record s {
  via_by_context = set_item s.via_by_context new via;
  lru_by_via = set_item s.lru_by_via via (or_nil (get s.lru_by_via via));
}

-- What the update of a full list does, the most recent context first: shut down an idle one, with
-- every more recent one in use; or nothing, with all in use; or raise, at a context with no count.
abbrev pub Evicts : Context → Context → Service → Outcome → Type 0
Evicts new via s o =
    let recent = reverse (or_nil (get s.lru_by_via via)) in
    ((c : Context) × (newer : List Context) × (older : List Context) × (recent
        ≡ newer ++ (c ∷ older))
      × All (InUse s.refs_by_context) newer
      × (get s.refs_by_context c ≡ some 0)
      × (o ≡ done (shutdown c (some new) (listed new via s))))
    ⊎ ((All (InUse s.refs_by_context) recent × (o ≡ done (listed new via s)))
        ⊎ ((c : Context) × Mem c recent
            × (get s.refs_by_context c ≡ none)
            × (o ≡ key_error (listed new via s))))

evict-Evicts :
    (new via : Context) (s : Service) (found : Search)
    → Found s.refs_by_context (reverse (or_nil (get s.lru_by_via via))) found
    → Evicts new via s (evict new found (listed new via s))
unfolding evict
evict-Evicts new via s (idle c) (newer, older, e, all, z) = inl (c, newer, older, e, all, z, refl)
evict-Evicts new via s all_in_use all = inr (inl (all, refl))
evict-Evicts new via s no_count (newer, c, older, e, all, z) =
    inr (inr (c, rw e (mem-append.1 (Or.inr (mem-cons.1 (Or.inl refl)))), z, refl))

-- With room in the list of its `via`, a new context is added behind the others and none is shut
-- down. With none, the one that is shut down to make room is idle, and every more recent one is in
-- use; if all are in use nothing is shut down and the new context is not listed; and if a context
-- with no count is met before an idle one, the update raises `KeyError`.
pub update_lru_cases :
    (max : ℕ) (new via : Context) (s : Service)
    → let lru = or_nil (get s.lru_by_via via) in
      ((length lru < max)
        × (update_lru max new via s
            ≡ done (record (listed new via s) {
              lru_by_via = set_item s.lru_by_via via (lru ++ (new ∷ []));
            })))
      ⊎ ((max ≤ length lru) × Evicts new via s (update_lru max new via s))
unfolding update_lru
update_lru_cases max new via s =
    let lru = or_nil (get s.lru_by_via via) in
    elim (Bool-cases (ltb (length lru) max)) [
      | inl room ↦ inl (ltb→lt _ _ room, rw room refl)
      | inr full ↦ inr (
        ground arith,
        rw full (
            evict-Evicts new via s (find_idle s.refs_by_context (reverse lru))
              (find_idle-Found s.refs_by_context (reverse lru))),
      )
    ]
