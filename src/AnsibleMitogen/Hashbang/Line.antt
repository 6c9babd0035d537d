-- ===== src/AnsibleMitogen/Hashbang/Line.antt =====
-- mitogen-0.2.9/ansible_mitogen/parsing.py: the parts of an interpreter line are found again.
mod Tests
use mathlib.Core.List.{append_assoc, reverse-append, reverse-reverse}
use ansible_course.Base.{
  ℕ, zero, suc, ◌+◌, ◌≤◌, ◌<◌, Bool, true, false, Text, Option, none, some, List, [], ◌∷◌, ◌++◌,
  ◌==◌, ◌≡◌, refl, ap, ◌∙◌, sym, arith, nat_key, reverse, leb, if◌then◌else◌, ◌&&◌, ◌||◌,
}
use ansible_course.Base.Lists.{length, length-append, All, All-append, codes}
use ansible_course.AnsibleMitogen.Hashbang.{
  is_space, first_line, strip_left, strip, word, after_word, Parsed, no_hashbang, interpreter,
  index_error, bits_of, with_rest, parse_script_interpreter, parse_hashbang,
}

-- A word: bytes that are not white space.
abbrev pub IsWord : Text → Type 0
IsWord t = All (λ c. is_space c ≡ false) t

first_line-append :
    (n : ℕ) (t body : Text)
    → All (λ c. (c == 10) ≡ false) t
    → length t < n
    → first_line n (t ++ (10 ∷ body)) ≡ t
unfolding first_line
first_line-append zero t body h l = ground (arith, l)
first_line-append (suc n) [] body h l = refl
first_line-append (suc n) (c ∷ t) body (h, hs) l =
    rw h (ap (λ r. c ∷ r) (first_line-append n t body hs (omega arith)))

pub no_newline : (t : Text) → IsWord t → All (λ c. (c == 10) ≡ false) t
no_newline [] h = tt
no_newline (c ∷ t) (h, hs) = (ground (arith, h), no_newline t hs)

-- Stripping leaves a text alone that begins and ends with other bytes.
strip_left-stop : (c : ℕ) (t : Text) → is_space c ≡ false → strip_left (c ∷ t) ≡ c ∷ t
unfolding strip_left
strip_left-stop c t h = rw h refl

strip-stop :
    (c d : ℕ) (t : Text)
    → is_space c ≡ false
    → is_space d ≡ false
    → strip (c ∷ (t ++ (d ∷ []))) ≡ c ∷ (t ++ (d ∷ []))
unfolding strip
strip-stop c d t hc hd =
    let s = c ∷ (t ++ (d ∷ [])) in
    let back : reverse s ≡ d ∷ reverse (c ∷ t) = reverse-append (c ∷ t) (d ∷ []) in
    ap (λ x. reverse (strip_left (reverse x))) (strip_left-stop c (t ++ (d ∷ [])) hc)
    ∙ (ap (λ x. reverse (strip_left x)) back
        ∙ (ap reverse (strip_left-stop d (reverse (c ∷ t)) hd)
            ∙ (ap reverse (sym back) ∙ reverse-reverse s)))

word-append : (t rest : Text) → IsWord t → word (t ++ (32 ∷ rest)) ≡ t
unfolding word
word-append [] rest h = refl
word-append (c ∷ t) rest (h, hs) = rw h (ap (λ r. c ∷ r) (word-append t rest hs))

after_word-append : (t rest : Text) → IsWord t → after_word (t ++ (32 ∷ rest)) ≡ strip_left rest
unfolding after_word
after_word-append [] rest h = refl
after_word-append (c ∷ t) rest (h, hs) = rw h (after_word-append t rest hs)

last_byte :
    (a : ℕ) (t : Text)
    → IsWord (a ∷ t)
    → (front : Text) × (d : ℕ) × (a ∷ t ≡ front ++ (d ∷ [])) × (is_space d ≡ false)
last_byte a [] (h, _) = ([], a, refl, h)
last_byte a (b ∷ t) (h, hs) =
    let (front, d, e, l) = last_byte b t hs in (a ∷ front, d, ap (λ r. a ∷ r) e, l)

strip-words :
    (p : ℕ) (path : Text) (a : ℕ) (arg : Text)
    → is_space p ≡ false
    → IsWord (a ∷ arg)
    → strip (p ∷ (path ++ (32 ∷ a ∷ arg))) ≡ p ∷ (path ++ (32 ∷ a ∷ arg))
strip-words p path a arg hp ha =
    let (front, d, e, hd) = last_byte a arg ha in
    let whole : path ++ (32 ∷ a ∷ arg) ≡ (path ++ (32 ∷ front)) ++ (d ∷ []) =
      ap (λ r. path ++ (32 ∷ r)) e ∙ sym (append_assoc path (32 ∷ front) (d ∷ [])) in
    ap (λ r. strip (p ∷ r)) whole
    ∙ (strip-stop p d (path ++ (32 ∷ front)) hp hd ∙ ap (λ r. p ∷ r) (sym whole))

bits_of-words :
    (p : ℕ) (path : Text) (a : ℕ) (arg : Text)
    → IsWord (p ∷ path)
    → is_space a ≡ false
    → bits_of (p ∷ (path ++ (32 ∷ a ∷ arg))) ≡ interpreter (p ∷ path) (some (a ∷ arg))
unfolding bits_of with_rest
bits_of-words p path a arg h ha =
    ap (λ w. with_rest w (after_word ((p ∷ path) ++ (32 ∷ a ∷ arg))))
      (word-append (p ∷ path) (a ∷ arg) h)
    ∙ ap (with_rest (p ∷ path))
        (after_word-append (p ∷ path) (a ∷ arg) h ∙ strip_left-stop a arg ha)

-- A script that begins with `#!`, a word, a space, a second word and a newline, 127 bytes at most
-- between the mark and the newline, is read as that interpreter with that argument, whatever
-- follows the line.
pub parse_hashbang-line :
    (p : ℕ) (path : Text) (a : ℕ) (arg body : Text)
    → IsWord (p ∷ path)
    → IsWord (a ∷ arg)
    → length ((p ∷ path) ++ (32 ∷ a ∷ arg)) < 128
    → parse_hashbang (b'#' ∷ b'!' ∷ (((p ∷ path) ++ (32 ∷ a ∷ arg)) ++ (10 ∷ body)))
      ≡ interpreter (p ∷ path) (some (a ∷ arg))
unfolding parse_hashbang parse_script_interpreter
parse_hashbang-line p path a arg body hp ha l =
    let line = (p ∷ path) ++ (32 ∷ a ∷ arg) in
    ap (λ t. bits_of (strip t))
      (first_line-append 128 line body
        (All-append _ (p ∷ path) (32 ∷ a ∷ arg) (no_newline (p ∷ path) hp)
          (refl, no_newline (a ∷ arg) ha))
        l)
    ∙ (ap bits_of (strip-words p path a arg hp.0 ha) ∙ bits_of-words p path a arg hp ha.0)
