-- ===== src/Todo/Requests.antt =====
-- todo-flask-postgres/todo.py: `new` on every form, and what holds after any requests.
use ansible_course.Base.{
  ℕ, Text, Option, none, some, List, [], ◌∷◌, ◌++◌, ◌≡◌, ◌≢◌, refl, map, arith, text_key,
  Bool-cases, inl, inr,
}
use ansible_course.Base.Lists.{codes, All, All-append}
use ansible_course.Base.Dict.{get}
use ansible_course.Todo.{
  Todo, new_todo, Database, Form, Request, show_all_get, favicon_get, new_get, new_post,
  update_post, to_show_all, App, Message, created, check_title, new, set_done, handle, serve,
}

-- A required field: there and not empty.
abbrev pub Given : Form → Text → Type 0
Given form key = (v : Text) × (get form key ≡ some v) × (v ≢ [])

check_title-given :
    (db : Database) (title text : Option Text) (now : ℕ) (app : App)
    → (check_title db title text now app).0 ≡ to_show_all
    → ((v : Text) × (title ≡ some v) × (v ≢ [])) × ((v : Text) × (text ≡ some v) × (v ≢ []))
unfolding check_title
check_title-given db none text now app e = cc
check_title-given db (some []) text now app e = cc
check_title-given db (some (c ∷ title)) none now app e = cc
check_title-given db (some (c ∷ title)) (some []) now app e = cc
check_title-given db (some (c ∷ title)) (some (d ∷ text)) now app e =
    ((c ∷ title, refl, λ n. cc), (d ∷ text, refl, λ n. cc))

-- What a POST to `/new` does: which response, and which table.
module _ (db : Database) (form : Form) (now : ℕ) (app : App) where
  -- Only then: a POST that is answered with the list had both fields, and any other answer leaves
  -- the table as it was.
  pub new_only_creates :
      ((new db form now app).0 ≡ to_show_all
        → Given form (codes "title") × Given form (codes "text"))
      × ((new db form now app).0 ≢ to_show_all → (new db form now app).1.todos ≡ app.todos)
  unfolding new
  new_only_creates = (
    check_title-given db (get form (codes "title")) (get form (codes "text")) now app,
    λ h. ground arith,
  )

-- Two todos never have the same id.
abbrev pub Distinct : List Todo → Type 0
Distinct [] = Unit
Distinct (t ∷ ts) = All (λ u. u.id ≢ t.id) ts × Distinct ts

pub record IsValid (app : App) : Type 0 where
  pub distinct : Distinct app.todos
  pub titled : All (λ t. (t.title ≢ []) × (t.text ≢ [])) app.todos

-- What the program relies on: a serial number is no row's id.
abbrev pub IsSerial : Database → Type 0
IsSerial db = (ts : List Todo) → All (λ t. db.next_id ts ≢ t.id) ts

All-set_done_ids :
    (form : Form) (n : ℕ) (ts : List Todo)
    → All (λ u. u.id ≢ n) ts
    → All (λ u. u.id ≢ n) (map (set_done form) ts)
unfolding set_done
All-set_done_ids form n [] a = tt
All-set_done_ids form n (t ∷ ts) (h, a) = (h, All-set_done_ids form n ts a)

Distinct-set_done : (form : Form) (ts : List Todo) → Distinct ts → Distinct (map (set_done form) ts)
unfolding set_done
Distinct-set_done form [] d = tt
Distinct-set_done form (t ∷ ts) (a, d) =
    (All-set_done_ids form t.id ts a, Distinct-set_done form ts d)

titled-set_done :
    (form : Form) (ts : List Todo)
    → All (λ t. (t.title ≢ []) × (t.text ≢ [])) ts
    → All (λ t. (t.title ≢ []) × (t.text ≢ [])) (map (set_done form) ts)
unfolding set_done
titled-set_done form [] a = tt
titled-set_done form (t ∷ ts) (h, a) = (h, titled-set_done form ts a)

Distinct-append :
    (ts : List Todo) (t : Todo)
    → Distinct ts
    → All (λ u. t.id ≢ u.id) ts
    → Distinct (ts ++ (t ∷ []))
Distinct-append [] t d a = (tt, tt)
Distinct-append (u ∷ ts) t (au, d) (ne, a) =
    (All-append (λ v. v.id ≢ u.id) ts (t ∷ []) au (ne, tt), Distinct-append ts t d a)

append-IsValid :
    (db : Database) (title text : Text) (now : ℕ) (app : App) (m : List Message)
    → IsSerial db
    → title ≢ []
    → text ≢ []
    → IsValid app
    → IsValid (record {
      todos = app.todos ++ (new_todo (db.next_id app.todos) title text now ∷ []);
      flashes = m;
    })
unfolding new_todo
append-IsValid db title text now app m serial ht hx v =
    let t = new_todo (db.next_id app.todos) title text now in
    record {
      distinct = Distinct-append app.todos t v.distinct (serial app.todos);
      titled =
          All-append (λ u. (u.title ≢ []) × (u.text ≢ [])) app.todos (t ∷ []) v.titled
            ((ht, hx), tt);
    }

check_title-IsValid :
    (db : Database) (title text : Option Text) (now : ℕ) (app : App)
    → IsSerial db
    → IsValid app
    → IsValid (check_title db title text now app).1
unfolding check_title
check_title-IsValid db none text now app s v = v
check_title-IsValid db (some []) text now app s v = record {
  distinct = v.distinct;
  titled = v.titled;
}
check_title-IsValid db (some (c ∷ title)) none now app s v = v
check_title-IsValid db (some (c ∷ title)) (some []) now app s v = record {
  distinct = v.distinct;
  titled = v.titled;
}
check_title-IsValid db (some (c ∷ title)) (some (d ∷ text)) now app s v =
    elim (Bool-cases (db.accepts (new_todo (db.next_id app.todos) (c ∷ title) (d ∷ text) now))) [
      | inl yes_ ↦ rw yes_ (
          append-IsValid db (c ∷ title) (d ∷ text) now app (app.flashes ++ (created ∷ [])) s
            (λ n. cc) (λ n. cc) v)
      | inr no_ ↦ rw no_ v
    ]

handle-IsValid :
    (db : Database) (r : Request) (app : App)
    → IsSerial db
    → IsValid app
    → IsValid (handle db r app).1
unfolding handle new
handle-IsValid db show_all_get app s v = record { distinct = v.distinct; titled = v.titled }
handle-IsValid db favicon_get app s v = v
handle-IsValid db new_get app s v = record { distinct = v.distinct; titled = v.titled }
handle-IsValid db (new_post form now) app s v =
    check_title-IsValid db (get form (codes "title")) (get form (codes "text")) now app s v
handle-IsValid db (update_post form) app s v = record {
  distinct = Distinct-set_done form app.todos v.distinct;
  titled = titled-set_done form app.todos v.titled;
}

-- After any requests, in any order and with any forms, no two todos have the same id and none has
-- an empty title or text, if that held before and the database's serial numbers are fresh.
pub serve-IsValid :
    (db : Database) (rs : List Request) (app : App)
    → IsSerial db
    → IsValid app
    → IsValid (serve db rs app)
unfolding serve
serve-IsValid db [] app s v = v
serve-IsValid db (r ∷ rs) app s v =
    serve-IsValid db rs (handle db r app).1 s (handle-IsValid db r app s v)
