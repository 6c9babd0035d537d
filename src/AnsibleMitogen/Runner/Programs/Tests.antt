-- ===== src/AnsibleMitogen/Runner/Programs/Tests.antt =====
-- mitogen-0.2.9/ansible_mitogen/runner.py: a script of a shell, and one of old arguments.
use ansible_course.Base.{true, Text, some, [], ◌∷◌, ◌++◌, ◌≡◌, refl, arith}
use ansible_course.Base.Lists.{codes}
use ansible_course.AnsibleMitogen.Hashbang.{interpreter, parse_hashbang}
use ansible_course.AnsibleMitogen.Runner.EnvFile.{join}
use ansible_course.AnsibleMitogen.Runner.Programs.{
  behind_line, rewrite_source, replace, replace_from, starts_with, old_style_args, old_style_bits,
  shell_fragment,
}
use ansible_course.AnsibleMitogen.Runner.Programs.Source.{after_header, rewrite_source-parse}

abbrev script : Text
script = codes "#!/usr/bin/env sh" ++ (10 ∷ codes "id")

rewrite_source-parse_example :
    (parse_hashbang (rewrite_source (codes "/bin/sh" ++ codes " -e") true script)
      ≡ interpreter (codes "/bin/sh") (some (codes "-e")))
    × (after_header true (rewrite_source (codes "/bin/sh" ++ codes " -e") true script)
        ≡ behind_line script)
rewrite_source-parse_example =
    rewrite_source-parse b'/' (codes "bin/sh") b'-' (codes "e") script true
      (refl, (refl, (refl, (refl, (refl, (refl, (refl, tt))))))) (refl, (refl, tt)) (omega arith)

replaced : replace (codes "<<A>>") (codes "1") (codes "x=<<A>>,<<<A>>") ≡ codes "x=1,<1"
unfolding replace replace_from starts_with
replaced = refl

two_arguments :
    old_style_args (λ t. t) ((codes "a", codes "1") ∷ (codes "b", codes "2") ∷ [])
    ≡ codes "a=1 b=2 "
unfolding old_style_args old_style_bits join
two_arguments = refl

no_arguments : shell_fragment (λ t. t) (codes "/tmp/m") [] ≡ codes "/tmp/m "
unfolding shell_fragment join
no_arguments = refl
