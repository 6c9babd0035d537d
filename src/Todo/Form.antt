-- ===== src/Todo/Form.antt =====
-- todo-flask-postgres/todo.py: the form that the list page submits, and `update_done` on it.
use ansible_course.Base.{
  ℕ, Bool, true, false, none, some, List, [], ◌∷◌, ◌≡◌, refl, sym, ap, ◌∙◌, map, ◌==◌, text_key,
  text_same_iff, if◌then◌else◌, Bool-cases, inl, inr,
}
use ansible_course.Base.Lists.{codes, Elem, here, there, All}
use ansible_course.Base.Decimal.{decimal-injective, append-injective}
use ansible_course.Base.Dict.{get, same_refl}
use ansible_course.Todo.{Todo, Form, App, done_key, set_done, update_done, to_show_all}

-- A todo that is done or not as its box is.
abbrev pub boxed : (ℕ → Bool) → Todo → Todo
boxed tick t = record t { done = tick t.id }

-- templates/show_all.html: a browser sends the boxes that are ticked, each as `done.<id>=on`.
abbrev pub ticked : (ℕ → Bool) → List Todo → Form
ticked tick [] = []
ticked tick (t ∷ ts) =
    let rest = ticked tick ts in if tick t.id then (done_key t.id, codes "on") ∷ rest else rest

done_key-injective : (m n : ℕ) → done_key m ≡ done_key n → m ≡ n
unfolding done_key
done_key-injective m n e = decimal-injective m n (append-injective (codes "done.") e)

get-ticked_off :
    (tick : ℕ → Bool) (ts : List Todo) (n : ℕ)
    → tick n ≡ false
    → get (ticked tick ts) (done_key n) ≡ none
unfolding get
get-ticked_off tick [] n h = refl
get-ticked_off tick (t ∷ ts) n h = elim (Bool-cases (tick t.id)) [
  | inr off ↦ rw off (get-ticked_off tick ts n h)
  | inl on ↦ rw on (elim (Bool-cases (done_key t.id == done_key n)) [
    | inr other ↦ rw other (get-ticked_off tick ts n h)
    | inl same ↦ cc (on, h, ap tick (done_key-injective t.id n ((text_same_iff _ _).0 same)))
  ])
]

get-ticked_on :
    (tick : ℕ → Bool) (ts : List Todo) (t : Todo)
    → Elem t ts
    → tick t.id ≡ true
    → get (ticked tick ts) (done_key t.id) ≡ some (codes "on")
unfolding get
get-ticked_on tick [] t m h = elim m [ ]
get-ticked_on tick (u ∷ ts) t (here e) h =
    rw
      (
        ap tick (ap (λ (x : Todo). x.id) (sym e)) ∙ h,
        ap (λ (x : Todo). x.id) e,
        same_refl (done_key u.id),
      )
      refl
get-ticked_on tick (u ∷ ts) t (there m) h = elim (Bool-cases (tick u.id)) [
  | inr off ↦ rw off (get-ticked_on tick ts t m h)
  | inl on ↦ rw on (elim (Bool-cases (done_key u.id == done_key t.id)) [
    | inr other ↦ rw other (get-ticked_on tick ts t m h)
    | inl same ↦ rw same refl
  ])
]

set_done-ticked :
    (tick : ℕ → Bool) (ts : List Todo) (t : Todo)
    → Elem t ts
    → set_done (ticked tick ts) t ≡ boxed tick t
unfolding set_done
set_done-ticked tick ts t m = elim (Bool-cases (tick t.id)) [
  | inl on ↦ rw (get-ticked_on tick ts t m on, on) refl
  | inr off ↦ rw (get-ticked_off tick ts t.id off, off) refl
]

map-set_done :
    (tick : ℕ → Bool) (ts us : List Todo)
    → All (λ u. Elem u ts) us
    → map (set_done (ticked tick ts)) us ≡ map (boxed tick) us
map-set_done tick ts [] a = refl
map-set_done tick ts (u ∷ us) (m, a) =
    rw (set_done-ticked tick ts u m, map-set_done tick ts us a) refl

All-Elem : (ts us : List Todo) → ((t : Todo) → Elem t us → Elem t ts) → All (λ u. Elem u ts) us
All-Elem ts [] f = tt
All-Elem ts (u ∷ us) f = (f u (here refl), All-Elem ts us (λ t m. f t (there m)))

-- Submitting the list page's form with any choice of boxes ticked sets `done` of every todo to its
-- box and changes nothing else of any todo.
pub update_done-ticked :
    (tick : ℕ → Bool) (app : App)
    → let (response, app') = update_done (ticked tick app.todos) app in
      (response ≡ to_show_all) × (app'.todos ≡ map (boxed tick) app.todos)
unfolding update_done
update_done-ticked tick app =
    (refl, map-set_done tick app.todos app.todos (All-Elem app.todos app.todos (λ t m. m)))
