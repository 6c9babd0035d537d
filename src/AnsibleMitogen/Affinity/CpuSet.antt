-- ===== src/AnsibleMitogen/Affinity/CpuSet.antt =====
-- mitogen-0.2.9/ansible_mitogen/affinity.py: the `cpu_set_t` that a mask becomes.
use native.Mathlib.Nat.{pow-suc, div-lt_iff_lt-mul}
use ansible_course.Base.{
  ℕ, zero, suc, ◌+◌, ◌*◌, ◌/◌, ◌%◌, ◌^◌, ◌<◌, List, [], ◌∷◌, ◌++◌, ◌≡◌, refl, ◌∙◌, arith,
}
use ansible_course.Base.Lists.{length, length-append}
use ansible_course.AnsibleMitogen.Affinity.{pack, chunks, mask_to_bytes}

-- The number whose bytes these are, the least first.
abbrev pub value : List ℕ → ℕ
value [] = 0
value (b ∷ bs) = b + 256 * value bs

below_part : (b k m : ℕ) → 0 < b → m < b ^ suc k → m / b < b ^ k
below_part b k m p h = (div-lt_iff_lt-mul p).1 (rw pow-suc at h)

value-pack : (k m : ℕ) → m < 256 ^ k → value (pack k m) ≡ m
unfolding pack
value-pack zero m h = omega arith
value-pack (suc k) m h = omega (arith, value-pack k (m / 256) (below_part 256 k m (omega arith) h))

length-pack : (k m : ℕ) → length (pack k m) ≡ k
unfolding pack
length-pack zero m = refl
length-pack (suc k) m = omega (arith, length-pack k (m / 256))

value-append : (xs ys : List ℕ) → length xs ≡ 8 → value (xs ++ ys) ≡ value xs + 2 ^ 64 * value ys
value-append (a ∷ b ∷ c ∷ d ∷ e ∷ f ∷ g ∷ h ∷ []) ys l = omega arith
value-append _ ys l = omega arith

value-chunks : (x m : ℕ) → m < (2 ^ 64) ^ x → value (chunks x m) ≡ m
unfolding chunks
value-chunks zero m h = omega arith
value-chunks (suc x) m h =
    value-append (pack 8 (m % 2 ^ 64)) (chunks x (m / 2 ^ 64)) (length-pack 8 (m % 2 ^ 64))
    ∙ rw
        (
          value-pack 8 (m % 2 ^ 64) (omega arith),
          value-chunks x (m / 2 ^ 64) (below_part (2 ^ 64) x m (omega arith) h),
        )
        (omega arith)

length-chunks : (x m : ℕ) → length (chunks x m) ≡ 8 * x
unfolding chunks
length-chunks zero m = refl
length-chunks (suc x) m =
    length-append (pack 8 (m % 2 ^ 64)) (chunks x (m / 2 ^ 64))
    ∙ omega (arith, length-pack 8 (m % 2 ^ 64), length-chunks x (m / 2 ^ 64))

-- A mask for at most 1024 CPUs becomes 128 bytes that, read with the least byte first, are the mask.
pub mask_to_bytes-value :
    (mask : ℕ)
    → mask < (2 ^ 64) ^ 16
    → (value (mask_to_bytes mask) ≡ mask) × (length (mask_to_bytes mask) ≡ 128)
unfolding mask_to_bytes
mask_to_bytes-value mask h = (value-chunks 16 mask h, length-chunks 16 mask)
