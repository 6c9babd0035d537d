-- ===== src/GithubRepo.antt =====
-- library/github_repo.py: the Ansible module that creates or deletes a GitHub repository.
pub mod Runs
mod Tests
use ansible_course.Base.{
  ℕ, Bool, true, false, String, ◌<>◌, Option, none, some, List, [], ◌∷◌, ◌==◌, nat_key, string_key,
  if◌then◌else◌,
}
use ansible_course.Base.Dict.{Dict, get, del_item}

-- A parameter of the task, as `AnsibleModule` hands it over.
pub data Value : Type 0 where
  absent_value : Value
  str : String → Value
  flag : Bool → Value

abbrev pub Params : Type 0
Params = Dict String Value

pub data Method : Type 0 where
  post delete : Method

pub record Request : Type 0 where
  pub method : Method
  pub url : String
  pub token : Value  -- the `Authorization: token …` header
  pub body : Params  -- what `json.dumps` encodes; a deletion has none

pub data Error : Type 0 where
  key_error : String → Error
  -- `result.json()` on a body that is no JSON
  value_error : Error
  -- `None` is called: `state` is neither `present` nor `absent`
  type_error : Error

pub data Result (A : Type 0) : Type 0 where
  ok : A → Result A
  err : Error → Result A

-- `data[k]` and `del data[k]`
abbrev pub item : Params → String → Result Value
item data_ k = elim (get data_ k) [ none ↦ err (key_error k) | some v ↦ ok v ]

abbrev pub removed : Params → String → Result Params
removed data_ k = elim (get data_ k) [ none ↦ err (key_error k) | some _ ↦ ok (del_item data_ k) ]

module _ (Json : Type 0) where
  pub record Response : Type 0 where
    pub status_code : ℕ
    pub json : Option Json

  -- The `meta` of the answer: the body, the body with its status, or the fixed success.
  pub data Meta : Type 0 where
    body_of : Json → Meta
    with_status : ℕ → Json → Meta
    success : Meta

  abbrev pub json_of : Response → Result Json
  json_of r = elim r.json [ none ↦ err value_error | some j ↦ ok j ]

  pub data Exit : Type 0 where
    exit_json : Bool → Meta → Exit
    fail_json : Meta → Exit
    raised : Error → Exit

abbrev pub api_url : String
api_url = "https://api.github.com"

-- `"{}".format` of a parameter; `absent_value` prints as `None`.
abbrev pub formatted : Value → String
formatted absent_value = "None"
formatted (str s) = s
formatted (flag true) = "True"
formatted (flag false) = "False"

-- The API is a server with a state of any kind, and what it answers to a request.
module _ {S Json : Type 0} (send : S → Request → Response Json × S) where
  -- What is run with the server in some state.
  abbrev pub Run : Type 0 → Type 0
  Run A = S → Result A × S

  abbrev pub then_run : {A B : Type 0} → Result A × S → (A → Run B) → Result B × S
  then_run (ok a, s) f = f a s
  then_run (err e, s) f = (err e, s)

  infixl 5 ◌>>=◌
  abbrev pub ◌>>=◌ : {A B : Type 0} → Run A → (A → Run B) → Run B
  (m >>= f) s = then_run (m s) f

  abbrev pub now : {A : Type 0} → Result A → Run A
  now r s = (r, s)

  -- `requests.post` and `requests.delete`
  abbrev pub request : Request → Run (Response Json)
  request r s = let (answer, t) = send s r in (ok answer, t)

  abbrev pub Answer : Type 0
  Answer = Bool × Bool × Meta Json

  abbrev also : {A B : Type 0} → Result A → (A → B) → Result B
  also (ok a) f = ok (f a)
  also (err e) f = err e

  present_answer : Response Json → Result Answer
  present_answer result =
      if result.status_code == 201
      then also (json_of Json result) (λ j. (false, true, body_of j))
      else if result.status_code == 422
      then also (json_of Json result) (λ j. (false, false, body_of j))
      else also (json_of Json result) (λ j. (true, false, with_status result.status_code j))

  pub github_repo_present : Params → Run Answer
  unfolding present_answer
  github_repo_present data_ = do
    api_key ← now (item data_ "github_auth_key")
    without_state ← now (removed data_ "state")
    sent ← now (removed without_state "github_auth_key")
    result ←
        request
          (record { method = post; url = api_url <> "/user/repos"; token = api_key; body = sent })
    now (present_answer result)

  absent_answer : Response Json → Result Answer
  absent_answer result =
      if result.status_code == 204
      then ok (false, true, success)
      else if result.status_code == 404
      then also (json_of Json result) (λ j. (false, false, with_status result.status_code j))
      else also (json_of Json result) (λ j. (true, false, with_status result.status_code j))

  pub github_repo_absent : Params → Run Answer
  unfolding absent_answer
  github_repo_absent data_ = do
    api_key ← now (item data_ "github_auth_key")
    name ← now (item data_ "name")
    result ← request (record {
      method = delete;
      url = api_url <> "/repos/" <> "rvm8h" <> "/" <> formatted name;
      token = api_key;
      body = [];
    })
    now (absent_answer result)

  -- `choice_map.get(state)`, called on the parameters
  chosen : Value → Params → Run Answer
  unfolding github_repo_present github_repo_absent
  chosen absent_value data_ = now (err type_error)
  chosen (flag _) data_ = now (err type_error)
  chosen (str s) data_ =
      if s == "present"
      then github_repo_present data_
      else if s == "absent"
      then github_repo_absent data_
      else now (err type_error)

  exit_of : Result Answer → Exit Json
  exit_of (err e) = raised e
  exit_of (ok (true, has_changed, meta)) = fail_json meta
  exit_of (ok (false, has_changed, meta)) = exit_json has_changed meta

  abbrev exited : Result Answer × S → Exit Json × S
  exited (r, s) = (exit_of r, s)

  pub main : Params → S → Exit Json × S
  unfolding chosen exit_of
  main params s = exited ((now (item params "state") >>= (λ state. chosen state params)) s)
