-- ===== src/Todo.antt =====
-- todo-flask-postgres/todo.py: the Flask application over a table of todos.
pub mod Form
pub mod Requests
mod Tests
use ansible_course.Base.{
  ℕ, Bool, true, false, Text, Option, none, some, List, [], ◌∷◌, ◌++◌, map, ◌==◌, text_key,
  if◌then◌else◌,
}
use ansible_course.Base.Lists.{codes}
use ansible_course.Base.Decimal.{decimal}
use ansible_course.Base.Dict.{Dict, get, is_some}

-- `class Todo`
pub record Todo : Type 0 where
  pub id : ℕ
  pub title : Text
  pub text : Text
  pub done : Bool
  pub pub_date : ℕ

-- `Todo.__init__`, at the time `now`; the database gives the id on commit.
pub new_todo : ℕ → Text → Text → ℕ → Todo
new_todo id title text now = record {
  id = id;
  title = title;
  text = text;
  done = false;
  pub_date = now;
}

-- What the program relies on of the database: a serial number for a new row, its constraints, and
-- its `ORDER BY pub_date DESC`.
pub record Database : Type 0 where
  pub next_id : List Todo → ℕ
  pub accepts : Todo → Bool
  pub newest_first : List Todo → List Todo

abbrev pub Form : Type 0
Form = Dict Text Text

pub data Request : Type 0 where
  show_all_get favicon_get new_get : Request
  new_post : Form → ℕ → Request  -- with the time of its arrival
  update_post : Form → Request

pub data Message : Type 0 where
  title_required text_required created updated : Message

pub data Response : Type 0 where
  -- a page, with the messages that its layout shows
  list_page : List Todo → List Message → Response
  new_page : List Message → Response
  to_show_all : Response
  icon : Response
  -- status 400: a key that the form lacks
  bad_request : Response
  -- status 500: the commit raised, and nothing was written
  server_error : Response

pub record App : Type 0 where
  pub todos : List Todo
  pub flashes : List Message  -- the messages that wait in the session

abbrev flash : Message → App → App
flash m app = record app { flashes = app.flashes ++ (m ∷ []) }

-- The layout of every page takes the waiting messages.
render_new : App → Response × App
render_new app = (new_page app.flashes, record app { flashes = [] })

pub show_all : Database → App → Response × App
show_all db app = (list_page (db.newest_first app.todos) app.flashes, record app { flashes = [] })

-- `db.session.add`, `commit`, and what `new` does after it
commit_new : Database → Text → Text → ℕ → App → Response × App
commit_new db title text now app =
    let todo = new_todo (db.next_id app.todos) title text now in
    if db.accepts todo
    then (to_show_all, flash created (record app { todos = app.todos ++ (todo ∷ []) }))
    else (server_error, app)

-- `new` on a POST, from the lookup of the text on, and from its start.
check_text : Database → Option Text → Text → ℕ → App → Response × App
unfolding commit_new render_new
check_text db none title now app = (bad_request, app)
check_text db (some []) title now app = render_new (flash text_required app)
check_text db (some (c ∷ text)) title now app = commit_new db title (c ∷ text) now app

check_title : Database → Option Text → Option Text → ℕ → App → Response × App
unfolding check_text
check_title db none text now app = (bad_request, app)
check_title db (some []) text now app = render_new (flash title_required app)
check_title db (some (c ∷ title)) text now app = check_text db text (c ∷ title) now app

pub new : Database → Form → ℕ → App → Response × App
unfolding check_title new_todo
new db form now app = check_title db (get form (codes "title")) (get form (codes "text")) now app

-- `'done.%d' % todo.id`
pub done_key : ℕ → Text
done_key id = codes "done." ++ decimal id

pub set_done : Form → Todo → Todo
set_done form todo = record todo { done = is_some (get form (done_key todo.id)) }

pub update_done : Form → App → Response × App
unfolding set_done
update_done form app =
    (to_show_all, flash updated (record app { todos = map (set_done form) app.todos }))

-- The routes.
pub handle : Database → Request → App → Response × App
unfolding show_all new update_done
handle db show_all_get app = show_all db app
handle db favicon_get app = (icon, app)
handle db new_get app = render_new app
handle db (new_post form now) app = new db form now app
handle db (update_post form) app = update_done form app

pub serve : Database → List Request → App → App
unfolding handle
serve db [] app = app
serve db (r ∷ rs) app = serve db rs (handle db r app).1
