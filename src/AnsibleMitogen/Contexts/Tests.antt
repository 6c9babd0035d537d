-- ===== src/AnsibleMitogen/Contexts/Tests.antt =====
-- mitogen-0.2.9/ansible_mitogen/services.py: two hosts behind a jump host, with room for two.
use ansible_course.Base.{
  ◌≤◌, ◌<◌, true, String, Option, none, some, [], ◌∷◌, ◌++◌, ◌≡◌, ◌≢◌, ◌⊎◌, refl, arith, false,
  nat_key, string_key, ◌<>◌,
}
use ansible_course.Base.Lists.{length}
use ansible_course.Base.Dict.{get, set_item}
use ansible_course.AnsibleMitogen.Contexts.{
  Context, Service, done, update_lru, or_nil, wait_or_start, connected, record_response, shutdown,
}
use ansible_course.AnsibleMitogen.Contexts.References.{IsConsistent, after, after_wait, raises}
use ansible_course.AnsibleMitogen.Contexts.Steps.{
  Reach, here, next, waiting, connecting, recording, Served, request-Served,
}
use text.Mathlib.TextEquality.{eq_iff}
use ansible_course.AnsibleMitogen.Contexts.Reset.{walk, reset, reset_drops, answers}
use ansible_course.AnsibleMitogen.Contexts.Recycling.{listed, Evicts, update_lru_cases}

abbrev empty : Service
empty = record {
  response_by_key = [];
  latches_by_key = [];
  refs_by_context = [];
  lru_by_via = [];
  key_by_context = [];
  via_by_context = [];
  shut = [];
  replies = [];
}

abbrev asked : Service
asked = after_wait (wait_or_start "web" 1 empty)

abbrev up : Service
up = connected "web" 7 asked

asked_nothing : (k : String) → get asked.response_by_key k ≢ some 7
unfolding get wait_or_start
asked_nothing k e = ground (arith, e)

web_known : get up.key_by_context 7 ≡ some "web"
unfolding get connected set_item wait_or_start
web_known = refl

web_records : raises (record_response "web" 7 1 up) ≡ false
unfolding record_response connected get set_item wait_or_start
web_records = refl

recorded : Reach 2 empty (after (record_response "web" 7 1 up))
recorded =
    next (next (next here (waiting "web" 1)) (connecting "web" 7 asked_nothing))
      (recording "web" 7 1 web_known web_records)

request-Served_example :
    IsConsistent (after (record_response "web" 7 1 up))
    × Served "web" 2 (after (record_response "web" 7 1 up))
request-Served_example = request-Served refl recorded "web" 2

-- Two hosts behind context 1: context 7 is idle, context 8 has two tasks.
abbrev full : Service
full = record empty {
  refs_by_context = (7, 0) ∷ (8, 2) ∷ [];
  lru_by_via = (1, 7 ∷ 8 ∷ []) ∷ [];
  key_by_context = (7, "web") ∷ (8, "db") ∷ [];
  via_by_context = (7, 1) ∷ (8, 1) ∷ [];
}

update_lru_cases_example :
    let lru = or_nil (get full.lru_by_via 1) in
    ((length lru < 2)
      × (update_lru 2 9 1 full
          ≡ done (record (listed 9 1 full) {
            lru_by_via = set_item full.lru_by_via 1 (lru ++ (9 ∷ []));
          })))
    ⊎ ((2 ≤ length lru) × Evicts 9 1 full (update_lru 2 9 1 full))
update_lru_cases_example = update_lru_cases 2 9 1 full

-- A hop is known by its name and the context before it.
abbrev key_of : Option Context → String → String
key_of none name = name
key_of (some via) name = "behind " <> name

abbrev pair_up : Service
pair_up = record empty {
  response_by_key = ("web", 7) ∷ ("behind db", 8) ∷ [];
  refs_by_context = (7, 0) ∷ (8, 0) ∷ [];
  key_by_context = (7, "web") ∷ (8, "behind db") ∷ [];
}

pair_agrees : IsConsistent pair_up
unfolding get
pair_agrees key c e = ground (arith, e, eq_iff "web" key, eq_iff "behind db" key)

reset_drops_example :
    let r = reset key_of (λ c. true) "web" ("db" ∷ []) pair_up in
    ((walk key_of none "web" ("db" ∷ []) pair_up ≡ none) × (r ≡ (answers false, pair_up)))
    ⊎ ((c : Context) × (walk key_of none "web" ("db" ∷ []) pair_up ≡ some c)
        × (r ≡ (answers true, shutdown c none pair_up))
        × ((key : String) → get r.1.response_by_key key ≢ some c)
        × IsConsistent r.1)
reset_drops_example = reset_drops key_of (λ c. true) "web" ("db" ∷ []) pair_up pair_agrees
