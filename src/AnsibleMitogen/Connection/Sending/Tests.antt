-- ===== src/AnsibleMitogen/Connection/Sending/Tests.antt =====
-- mitogen-0.2.9/ansible_mitogen/connection.py: a small file, and a file that grew.
use ansible_course.Base.{some, [], ◌∷◌, ◌++◌, ◌≡◌, refl, nat_key, true}
use ansible_course.Base.Lists.{codes}
use ansible_course.AnsibleMitogen.Connection.Sending.{
  Stat, stated, asks, register, transfer, put_file, take, shared_connection,
}
use ansible_course.AnsibleMitogen.Connection.Sending.Whole.{Sends, put_file-Sends}

abbrev regular : Stat
regular = stated true 5 420

put_file-Sends_example :
    Sends 8 regular (some (codes "hello")) (put_file 2 8 regular (some (codes "hello")))
put_file-Sends_example = put_file-Sends 2 8 regular (some (codes "hello"))

grew : put_file 2 8 regular (some (codes "hello, there")) ≡ asks (register ∷ transfer ∷ [])
unfolding put_file take
grew = refl

message :
    shared_connection (codes "web") true
    ≡ codes "Shared connection to web closed." ++ (13 ∷ 10 ∷ [])
unfolding shared_connection
message = refl
