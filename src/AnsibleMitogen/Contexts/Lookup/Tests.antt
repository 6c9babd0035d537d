-- ===== src/AnsibleMitogen/Contexts/Lookup/Tests.antt =====
-- mitogen-0.2.9/ansible_mitogen/services.py: two requests with one key, and a stack that fails behind its
-- first hop.
use ansible_course.Base.{String, Option, none, some, [], ◌∷◌, ◌≡◌, refl}
use ansible_course.Base.Lists.{codes}
use ansible_course.AnsibleMitogen.Contexts.{Context, Service}
use ansible_course.AnsibleMitogen.Contexts.Lookup.{
  str, item, no_items, key_from_dict, items_of, key_of, Waited, got, stream_error, no_context, get,
}

-- The user `x` with the password `yusernamez`, and the user `xusernamey` with the password `z`.
one_key :
    key_from_dict (
      item
        (codes "password")
        (str (codes "yusernamez"))
        (item (codes "username") (str (codes "x")) no_items))
    ≡ key_from_dict (
        item
          (codes "password")
          (str (codes "z"))
          (item (codes "username") (str (codes "xusernamey")) no_items))
unfolding key_from_dict items_of key_of
one_key = refl

abbrev first_only : Option Context → String → Service → Service × Waited
first_only none spec s = (s, got 1)
first_only (some via) spec s = (s, stream_error (codes "refused"))

second_refused :
    (s : Service)
    → get first_only none "bastion" ("web" ∷ []) s ≡ (s, no_context "web" (codes "refused"))
unfolding get
second_refused s = refl
