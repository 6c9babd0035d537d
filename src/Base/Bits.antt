-- ===== src/Base/Bits.antt =====
-- Binary digits of native numbers, and what `&`, `|` and `& ~` do to each.
use Prim.Native.Nat.{
  ℕ, zero, suc, ◌+◌, ◌-◌, ◌*◌, ◌/◌, ◌%◌, ◌≤◌, min, max, bit_and, bit_or, digits, bit_and-bitwise,
  bit_or-bitwise,
}
use mathlib.Core.Path.{◌≡◌, refl, ap, ◌∙◌}
use mathlib.Core.Bool.{Bool, false, not, ◌&&◌, ◌||◌}
use native.Mathlib.Omega.{arith}
use ansible_course.Base.Tests.{◌==◌, nat_key}

-- Whether digit `i` of `a` is 1.
unfoldable pub bit : ℕ → ℕ → Bool
bit zero a = a % 2 == 1
bit (suc i) a = bit i (a / 2)

-- More rounds than the number has digits change nothing.
enough_rounds :
    (z : ℕ → ℕ) (f : ℕ → ℕ → ℕ) (n m a b : ℕ) → a ≤ n → n ≤ m → digits z f m a b ≡ digits z f n a b
enough_rounds z f zero zero zero b h l = refl
enough_rounds z f zero (suc m) zero b h l = refl
enough_rounds z f (suc n) zero zero b h l = elim l [ ]
enough_rounds z f (suc n) (suc m) zero b h l = refl
enough_rounds z f n zero (suc a) b h l = absurd (omega (arith, h, l))
enough_rounds z f zero m (suc a) b h l = absurd (omega (arith, h))
enough_rounds z f (suc n) (suc m) (suc a) b h l =
    ap (λ r. r * 2 + f (suc a % 2) (b % 2))
      (enough_rounds z f n m (suc a / 2) (b / 2) (omega arith) (omega arith))

and_digit : (a b : ℕ) → bit_and a b ≡ bit_and (a / 2) (b / 2) * 2 + min (a % 2) (b % 2)
and_digit zero b = omega (arith, bit_and-bitwise 0 b, bit_and-bitwise 0 (b / 2))
and_digit (suc a) b = omega (
  arith,
  bit_and-bitwise (suc a) b,
  bit_and-bitwise (suc a / 2) (b / 2),
  enough_rounds (λ _. zero) min (suc a / 2) a (suc a / 2) (b / 2) (omega arith) (omega arith),
)

or_digit : (a b : ℕ) → bit_or a b ≡ bit_or (a / 2) (b / 2) * 2 + max (a % 2) (b % 2)
or_digit zero b = omega (arith, bit_or-bitwise 0 b, bit_or-bitwise 0 (b / 2))
or_digit (suc a) b = omega (
  arith,
  bit_or-bitwise (suc a) b,
  bit_or-bitwise (suc a / 2) (b / 2),
  enough_rounds (λ n. n) max (suc a / 2) a (suc a / 2) (b / 2) (omega arith) (omega arith),
)

pub bit-and : (i a b : ℕ) → bit i (bit_and a b) ≡ (bit i a && bit i b)
unfolding bit
bit-and zero a b = ground (arith, and_digit a b)
bit-and (suc i) a b = ap (bit i) (omega (arith, and_digit a b)) ∙ bit-and i (a / 2) (b / 2)

pub bit-or : (i a b : ℕ) → bit i (bit_or a b) ≡ (bit i a || bit i b)
unfolding bit
bit-or zero a b = ground (arith, or_digit a b)
bit-or (suc i) a b = ap (bit i) (omega (arith, or_digit a b)) ∙ bit-or i (a / 2) (b / 2)

pub and-le : (n a b : ℕ) → a ≤ n → bit_and a b ≤ a
and-le n zero b h = omega (arith, bit_and-bitwise 0 b)
and-le zero (suc a) b h = absurd (omega (arith, h))
and-le (suc n) (suc a) b h =
    omega (arith, and_digit (suc a) b, and-le n (suc a / 2) (b / 2) (omega arith))

-- `a & ~b`
abbrev pub and_not : ℕ → ℕ → ℕ
and_not a b = a - bit_and a b

pub bit-and_not : (i a b : ℕ) → bit i (and_not a b) ≡ (bit i a && not (bit i b))
unfolding bit
bit-and_not zero a b = ground (arith, and_digit a b, and-le a a b, and-le (a / 2) (a / 2) (b / 2))
bit-and_not (suc i) a b = ap (bit i) half ∙ bit-and_not i (a / 2) (b / 2)
  where
    half : and_not a b / 2 ≡ and_not (a / 2) (b / 2)
    half = ground (arith, and_digit a b, and-le (a / 2) (a / 2) (b / 2))

pub bit-zero : (i : ℕ) → bit i 0 ≡ false
unfolding bit
bit-zero zero = refl
bit-zero (suc i) = bit-zero i
