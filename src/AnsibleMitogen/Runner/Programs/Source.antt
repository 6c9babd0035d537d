-- ===== src/AnsibleMitogen/Runner/Programs/Source.antt =====
-- mitogen-0.2.9/ansible_mitogen/runner.py: the interpreter line and the rest of a rewritten script.
use ansible_course.Base.{
  ℕ, Bool, true, false, Text, some, [], ◌∷◌, ◌++◌, ◌==◌, ◌≡◌, ◌<◌, refl, ap, ◌∙◌, nat_key, arith,
}
use ansible_course.Base.Lists.{codes, contains, length, All, All-append}
use ansible_course.AnsibleMitogen.Hashbang.{interpreter, parse_hashbang}
use ansible_course.AnsibleMitogen.Hashbang.Line.{IsWord, no_newline, parse_hashbang-line}
use ansible_course.AnsibleMitogen.Runner.EnvFile.{partition}
use ansible_course.AnsibleMitogen.Runner.Programs.{behind_line, rewrite_source}

partition-line :
    (t rest : Text)
    → All (λ c. (c == 10) ≡ false) t
    → partition 10 (t ++ (10 ∷ rest)) ≡ (t, some rest)
unfolding partition
partition-line [] rest h = refl
partition-line (c ∷ t) rest (h, hs) = rw (partition-line t rest hs, h) refl

behind_line-line :
    (t rest : Text) → All (λ c. (c == 10) ≡ false) t → behind_line (t ++ (10 ∷ rest)) ≡ rest
unfolding behind_line
behind_line-line t rest h = rw (partition-line t rest h) refl

no_newline_in : (t : Text) → contains t 10 ≡ false → All (λ c. (c == 10) ≡ false) t
unfolding contains
no_newline_in [] h = tt
no_newline_in (c ∷ t) h = (ground (arith, h), no_newline_in t (ground (arith, h)))

utf8_line : contains (codes "# -*- coding: utf-8 -*-") 10 ≡ false
unfolding contains
utf8_line = refl

-- A script's text without the lines that the runner writes.
abbrev pub after_header : Bool → Text → Text
after_header false source = behind_line source
after_header true source = behind_line (behind_line source)

after_header-rewrite :
    (fragment : Text) (is_python : Bool) (s : Text)
    → All (λ c. (c == 10) ≡ false) fragment
    → after_header is_python (rewrite_source fragment is_python s) ≡ behind_line s
unfolding rewrite_source
after_header-rewrite fragment false s h =
    behind_line-line (codes "#!" ++ fragment) (behind_line s) (refl, (refl, h))
after_header-rewrite fragment true s h =
    ap behind_line (behind_line-line (codes "#!" ++ fragment) _ (refl, (refl, h)))
    ∙ behind_line-line (codes "# -*- coding: utf-8 -*-") (behind_line s)
        (no_newline_in (codes "# -*- coding: utf-8 -*-") utf8_line)

-- An interpreter and its argument, of words of fewer than 128 bytes in all: of the rewritten script
-- `parse_hashbang` reads just these, and behind the lines that the runner writes stands the script
-- without its first line, whatever that was.
pub rewrite_source-parse :
    (p : ℕ) (path : Text) (a : ℕ) (arg s : Text) (is_python : Bool)
    → IsWord (p ∷ path)
    → IsWord (a ∷ arg)
    → length ((p ∷ path) ++ (32 ∷ a ∷ arg)) < 128
    → let source = rewrite_source ((p ∷ path) ++ (32 ∷ a ∷ arg)) is_python s in
      (parse_hashbang source ≡ interpreter (p ∷ path) (some (a ∷ arg)))
      × (after_header is_python source ≡ behind_line s)
unfolding rewrite_source
rewrite_source-parse p path a arg s is_python h k l = (
  parse_hashbang-line p path a arg _ h k l,
  after_header-rewrite ((p ∷ path) ++ (32 ∷ a ∷ arg)) is_python s (
      All-append _ (p ∷ path) (32 ∷ a ∷ arg) (no_newline (p ∷ path) h)
        (refl, no_newline (a ∷ arg) k)),
)
