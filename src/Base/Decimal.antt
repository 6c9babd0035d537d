-- ===== src/Base/Decimal.antt =====
-- `'%d' % n` for a natural number, and that the text determines the number.
use Prim.Native.Nat.{ℕ, zero, suc, ◌+◌, ◌*◌, ◌/◌, ◌%◌, ◌-◌, ◌<◌}
use mathlib.Core.Path.{◌≡◌, refl, sym, ap, ◌∙◌}
use mathlib.Core.Logic.{inl, inr}
use mathlib.Core.List.{[], ◌∷◌, ◌++◌}
use native.Mathlib.Omega.{arith}
use ansible_course.Base.Tests.{Text, ltb, if◌then◌else◌, Bool-cases}

-- Most significant digit first; a number has fewer digits than the fuel `n + 1`.
abbrev pub digit : ℕ → ℕ
digit d = b'0' + d

pub digits_within : ℕ → ℕ → Text
digits_within zero n = []
digits_within (suc f) n =
    let front = digits_within f (n / 10) in
    if ltb n 10 then digit n ∷ [] else front ++ (digit (n % 10) ∷ [])

unfoldable pub decimal : ℕ → Text
unfolding digits_within
decimal n = digits_within (suc n) n

read_from : ℕ → Text → ℕ
read_from acc [] = acc
read_from acc (c ∷ s) = read_from (acc * 10 + (c - b'0')) s

read_from-append : (acc : ℕ) (s t : Text) → read_from acc (s ++ t) ≡ read_from (read_from acc s) t
unfolding read_from
read_from-append acc [] t = refl
read_from-append acc (c ∷ s) t = read_from-append (acc * 10 + (c - b'0')) s t

read_from-digits_within : (f n : ℕ) → n < f → read_from 0 (digits_within f n) ≡ n
unfolding digits_within read_from
read_from-digits_within zero n h = elim h [ ]
read_from-digits_within (suc f) n h = elim (Bool-cases (ltb n 10)) [
  | inl small ↦ rw small (omega arith)
  | inr big ↦ rw big (
      read_from-append 0 (digits_within f (n / 10)) (digit (n % 10) ∷ [])
      ∙ step (read_from 0 (digits_within f (n / 10)))
          (read_from-digits_within f (n / 10) (ground arith)))
]
  where
    step : (r : ℕ) → r ≡ n / 10 → r * 10 + (digit (n % 10) - b'0') ≡ n
    step r e = omega arith

pub decimal-injective : (m n : ℕ) → decimal m ≡ decimal n → m ≡ n
unfolding decimal
decimal-injective m n e =
    sym (read_from-digits_within (suc m) m (omega arith))
    ∙ (ap (read_from 0) e ∙ read_from-digits_within (suc n) n (omega arith))

pub append-injective : (s : Text) {t u : Text} → s ++ t ≡ s ++ u → t ≡ u
append-injective [] e = e
append-injective (c ∷ s) e = append-injective s (cc)
