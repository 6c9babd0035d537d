-- ===== src/GithubRepo/Runs.antt =====
-- library/github_repo.py: what a run sends, and how it ends for each answer of the API.
use text.Mathlib.TextEquality.{eq_iff}
use ansible_course.Base.{
  ℕ, true, false, String, ◌<>◌, Option, none, some, [], ◌==◌, ◌||◌, ◌≡◌, nat_key, string_key, arith,
  if◌then◌else◌,
}
use ansible_course.Base.Dict.{get, del_item, get-del_item}
use ansible_course.GithubRepo.{
  Value, absent_value, str, flag, Params, Method, Request, post, delete, Response, Meta, body_of,
  with_status, success, Exit, exit_json, fail_json, raised, Error, key_error, value_error,
  type_error, api_url, formatted, main,
}

-- The parameters that are sent: all but the state and the key.
abbrev pub sent : Params → Params
sent params = del_item (del_item params "state") "github_auth_key"

abbrev pub creation : Params → Value → Request
creation params key = record {
  method = post;
  url = api_url <> "/user/repos";
  token = key;
  body = sent params;
}

abbrev pub deletion : Value → Value → Request
deletion name key = record {
  method = delete;
  url = api_url <> "/repos/" <> "rvm8h" <> "/" <> formatted name;
  token = key;
  body = [];
}

-- What a run is to do: to send one request, or to raise and send nothing.
pub data Plan : Type 0 where
  one : Request → Plan
  nothing : Error → Plan

abbrev pub to_create : Params → Option Value → Plan
to_create params none = nothing (key_error "github_auth_key")
to_create params (some key) = one (creation params key)

abbrev pub to_delete : Option Value → Option Value → Plan
to_delete none name = nothing (key_error "github_auth_key")
to_delete (some key) none = nothing (key_error "name")
to_delete (some key) (some name) = one (deletion name key)

abbrev pub plan_for : Option Value → Params → Plan
plan_for none params = nothing (key_error "state")
plan_for (some absent_value) params = nothing type_error
plan_for (some (flag _)) params = nothing type_error
plan_for (some (str s)) params =
    if s == "present"
    then to_create params (get params "github_auth_key")
    else if s == "absent"
    then to_delete (get params "github_auth_key") (get params "name")
    else nothing type_error

abbrev pub plan : Params → Plan
plan params = plan_for (get params "state") params

-- The status codes of a change, and of none, and whether the body is read for the first.
abbrev pub change : Method → ℕ
change post = 201
change delete = 204

abbrev pub no_change : Method → ℕ
no_change post = 422
no_change delete = 404

module _ {Json : Type 0} where
  abbrev pub reported : Method → ℕ → Json → Meta Json
  reported post status j = body_of j
  reported delete status j = with_status status j

  -- How a run ends: a change, no change, or a failure. A body that is no JSON raises, but for a deletion that
  -- was made, whose body is not read.
  abbrev pub ended : Method → ℕ → Option Json → Exit Json
  ended post status none = raised value_error
  ended delete status none =
      if status == change delete then exit_json true success else raised value_error
  ended m status (some j) =
      if status == change m
      then exit_json true (elim m [ post ↦ body_of j | delete ↦ success ])
      else if status == no_change m
      then exit_json false (reported m status j)
      else fail_json (with_status status j)

module _ {S Json : Type 0} (send : S → Request → Response Json × S) where
  -- A plan carried out by a server in some state.
  abbrev pub carried_out : Plan → S → Exit Json × S
  carried_out (nothing e) s = (raised e, s)
  carried_out (one r) s =
      let (answer, t) = send s r in (ended r.method answer.status_code answer.json, t)

  get-sent :
      (params : Params) (k : String)
      → get (sent params) k
        ≡ (if k == "state" || k == "github_auth_key" then none else get params k)
  get-sent params k = ground (
    arith,
    eq_iff "state" k,
    eq_iff "github_auth_key" k,
    eq_iff k "state",
    eq_iff k "github_auth_key",
    get-del_item (del_item params "state") "github_auth_key" k,
    get-del_item params "state" k,
  )

  main_lem : (params : Params) (s : S) → main send params s ≡ carried_out (plan params) s
  unfolding main
  main_lem params s = ground (arith, get-del_item params "state" "github_auth_key")

  -- Whatever the parameters, the server and its state: a run sends one request and leaves the server as that
  -- one leaves it, or it raises and sends nothing. With state `present` and a key it is a POST with the key in
  -- its header; its body has each other parameter with its value, and neither the key nor the state. With
  -- state `absent`, a key and a name it is a DELETE of that name in the account `rvm8h`, with no body. A
  -- parameter that is missing raises `KeyError`, and any other state `TypeError`. The answer's status code
  -- alone decides between a change, none, and a failure; a body that is no JSON raises, but for a deletion
  -- that was made.
  pub main-Sends :
      (params : Params) (s : S)
      → (main send params s ≡ carried_out (plan params) s)
        × ((k : String)
            → get (sent params) k
              ≡ (if k == "state" || k == "github_auth_key" then none else get params k))
  main-Sends params s = (main_lem params s, get-sent params)
