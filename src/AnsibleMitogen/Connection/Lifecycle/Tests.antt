-- ===== src/AnsibleMitogen/Connection/Lifecycle/Tests.antt =====
-- mitogen-0.2.9/ansible_mitogen/connection.py: a connection that is made, put back for the next task and
-- made again.
use ansible_course.Base.{ℕ, true, false, none, some, [], ◌∷◌, ◌≡◌, refl, string_key}
use ansible_course.Base.Dict.{get}
use ansible_course.AnsibleMitogen.Connection.Lifecycle.{
  Link, connected_to, connect, connect_stack, put_connection, on_action_run, close, unconnected,
  get_task_var,
}
use ansible_course.AnsibleMitogen.Connection.Lifecycle.Held.{
  connecting, starting, Reach, here, next, Holds, methods-Holds,
}

abbrev once : Link
once = (connect false (some 1) (connected_to 7 none) unconnected).0

abbrev put_back : Link
put_back = (on_action_run false once).0

abbrev twice : Link
twice = (connect true (some 2) (connected_to 8 (some 7)) put_back).0

calls : Reach unconnected twice
calls =
    next (next (next here (connecting false (some 1) (connected_to 7 none))) (starting false))
      (connecting true (some 2) (connected_to 8 (some 7)))

methods-Holds_example :
    Holds twice × (let closed = (close false twice).0 in closed.gets ≡ closed.puts)
methods-Holds_example = methods-Holds calls

both_got : twice.gets ≡ 7 ∷ 8 ∷ []
unfolding connect connect_stack on_action_run put_connection unconnected
both_got = refl

delegated :
    get_task_var {V = ℕ} (some "db") (("port", 1) ∷ []) (("db", ("port", 2) ∷ []) ∷ []) "port"
    ≡ some 2
unfolding get_task_var get
delegated = refl
