-- ===== src/GithubRepo/Tests.antt =====
-- library/github_repo.py: runs against an account that logs what it is sent.
use ansible_course.Base.{
  ℕ, true, false, String, none, some, List, [], ◌∷◌, ◌++◌, ◌==◌, ◌||◌, ◌≡◌, refl, string_key,
  if◌then◌else◌,
}
use ansible_course.Base.Dict.{get, del_item}
use ansible_course.GithubRepo.{str, flag, Params, Request, Response, main, exit_json, body_of}
use ansible_course.GithubRepo.Runs.{sent, creation, plan, carried_out, main-Sends}

-- The JSON bodies are numbers. A second request is refused.
abbrev reply : ℕ → Response ℕ
reply status = record { status_code = status; json = some status }

abbrev account : List Request → Request → Response ℕ × List Request
account [] r = (reply 201, r ∷ [])
account (q ∷ log) r = (reply 422, (q ∷ log) ++ (r ∷ []))

abbrev params : Params
params =
    ("state", str "present")
    ∷ ("github_auth_key", str "s3cret")
    ∷ ("name", str "Hello-World")
    ∷ ("private", flag true)
    ∷ []

main-Sends_example :
    (main account params [] ≡ carried_out account (plan params) [])
    × ((k : String)
        → get (sent params) k
          ≡ (if k == "state" || k == "github_auth_key" then none else get params k))
main-Sends_example = main-Sends account params []

-- One request, and the log of the account has no other; run again, there is no change.
created_once :
    main account params [] ≡ (exit_json true (body_of 201), creation params (str "s3cret") ∷ [])
unfolding main get del_item
created_once = refl

taken : (main account params (main account params []).1).0 ≡ exit_json false (body_of 422)
unfolding main get del_item
taken = refl
