-- ===== src/Todo/Tests.antt =====
-- todo-flask-postgres/todo.py: requests to a small table.
use ansible_course.Base.{
  ℕ, suc, ◌+◌, ◌<◌, true, List, [], ◌∷◌, ◌≡◌, ◌≢◌, refl, map, arith, text_key, nat_key, ◌==◌,
}
use ansible_course.Base.Lists.{codes, All}
use ansible_course.Base.Decimal.{decimal}
use ansible_course.Todo.{
  Todo, new_todo, Database, Form, new_post, update_post, show_all_get, to_show_all, App, new,
  update_done, serve, done_key,
}
use ansible_course.Todo.Form.{ticked, boxed, update_done-ticked}
use ansible_course.Todo.Requests.{Given, IsValid, IsSerial, new_only_creates, serve-IsValid}

-- A serial number above all ids: one more than their sum.
abbrev id_sum : List Todo → ℕ
id_sum [] = 0
id_sum (t ∷ ts) = t.id + id_sum ts

abbrev db : Database
db = record { next_id = λ ts. suc (id_sum ts); accepts = λ _. true; newest_first = λ ts. ts }

above : (n : ℕ) (ts : List Todo) → id_sum ts < n → All (λ t. n ≢ t.id) ts
above n [] h = tt
above n (t ∷ ts) h = (omega arith, above n ts (omega arith))

db-IsSerial : IsSerial db
db-IsSerial ts = above (suc (id_sum ts)) ts (omega arith)

abbrev milk : Todo
milk = new_todo 1 (codes "milk") (codes "two litres") 100

abbrev post : Todo
post = new_todo 12 (codes "post") (codes "the letter") 200

abbrev shop : App
shop = record { todos = milk ∷ post ∷ []; flashes = [] }

abbrev bread : Form
bread = (codes "title", codes "bread") ∷ (codes "text", codes "white") ∷ []

update_done-ticked_example :
    let (response, app') = update_done (ticked (λ n. n == 12) shop.todos) shop in
    (response ≡ to_show_all) × (app'.todos ≡ map (boxed (λ n. n == 12)) shop.todos)
update_done-ticked_example = update_done-ticked (λ n. n == 12) shop

done_key_12 : done_key 12 ≡ codes "done.12"
unfolding done_key decimal
done_key_12 = refl

new_only_creates_example :
    ((new db [] 300 shop).0 ≡ to_show_all → Given [] (codes "title") × Given [] (codes "text"))
    × ((new db [] 300 shop).0 ≢ to_show_all → (new db [] 300 shop).1.todos ≡ shop.todos)
new_only_creates_example = new_only_creates db [] 300 shop

shop-IsValid : IsValid shop
unfolding new_todo
shop-IsValid = record {
  distinct = (((λ e. omega arith), tt), (tt, tt));
  titled = (((λ e. cc), (λ e. cc)), (((λ e. cc), (λ e. cc)), tt));
}

serve-IsValid_example :
    IsValid (serve db (new_post bread 300 ∷ update_post [] ∷ show_all_get ∷ []) shop)
serve-IsValid_example =
    serve-IsValid db (new_post bread 300 ∷ update_post [] ∷ show_all_get ∷ []) shop db-IsSerial
      shop-IsValid
