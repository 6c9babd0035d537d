-- ===== src/AnsibleMitogen/Workers/Tests.antt =====
-- mitogen-0.2.9/ansible_mitogen/process.py: a worker of two multiplexers, of which the second is gone.
use ansible_course.Base.{
  ℕ, true, false, String, none, [], ◌∷◌, ◌≡◌, refl, string_key, nat_key, ◌==◌, if◌then◌else◌,
}
use ansible_course.AnsibleMitogen.Workers.{
  Worker, unbound, get_binding, listener_for_name, pick, reconnect, increase_open_file_limit,
}
use ansible_course.AnsibleMitogen.Workers.Bound.{Reach, start, binding, Binds, get_binding-Binds}

abbrev hash : String → ℕ
hash name = if name == "web" then 0 else 1

abbrev lost : Worker
lost =
    (get_binding hash "/a" ("/b" ∷ []) false "db"
      (get_binding hash "/a" ("/b" ∷ []) true "web" unbound).0).0

calls : Reach hash "/a" ("/b" ∷ []) lost
calls = binding (binding start true "web") false "db"

get_binding-Binds_example :
    Binds true
      (listener_for_name hash "/a" ("/b" ∷ []) "web")
      lost
      (get_binding hash "/a" ("/b" ∷ []) true "web" lost)
get_binding-Binds_example = get_binding-Binds hash "/a" ("/b" ∷ []) true "web" calls

-- The binding for the first host is returned, and connected to nothing.
not_connected : (get_binding hash "/a" ("/b" ∷ []) true "web" lost).0.parent ≡ none
unfolding get_binding listener_for_name pick reconnect unbound
not_connected = refl

second_try : increase_open_file_limit (λ n. n == 10240) 1024 none ≡ 10240
unfolding increase_open_file_limit
second_try = refl
