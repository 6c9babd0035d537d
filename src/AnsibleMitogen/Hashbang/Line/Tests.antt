-- ===== src/AnsibleMitogen/Hashbang/Line/Tests.antt =====
-- mitogen-0.2.9/ansible_mitogen/parsing.py: a blank interpreter line.
use ansible_course.Base.{◌≡◌, refl}
use ansible_course.Base.Lists.{codes}
use ansible_course.AnsibleMitogen.Hashbang.{index_error, parse_hashbang}

blank_line : parse_hashbang (codes "#! ") ≡ index_error
unfolding parse_hashbang
blank_line = refl
