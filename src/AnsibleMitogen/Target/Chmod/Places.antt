-- ===== src/AnsibleMitogen/Target/Chmod/Places.antt =====
-- mitogen-0.2.9/ansible_mitogen/target.py: the permission that each digit of a mode stands for.
use Prim.Native.Nat.{bit_and, bit_or}
use ansible_course.Base.{
  ℕ, zero, suc, Bool, true, false, Text, Option, none, some, List, [], ◌∷◌, ◌==◌, ◌≡◌, refl, arith,
  not, ◌&&◌, ◌||◌, nat_key, if◌then◌else◌,
}
use ansible_course.Base.Lists.{All, contains, codes}
use ansible_course.Base.Bits.{bit, and_not, bit-and, bit-or, bit-and_not, bit-zero}
use ansible_course.Base.Dict.{Dict, get, is_some}
use ansible_course.AnsibleMitogen.Target.Chmod.{chmod_masks, chmod_bits, mode, or_bits, combine}

-- The class of users and the permission that digit `i` of a mode stands for, if for one.
abbrev pub places : List (ℕ × ℕ)
places =
    (b'o', b'x')
    ∷ (b'o', b'w')
    ∷ (b'o', b'r')
    ∷ (b'g', b'x')
    ∷ (b'g', b'w')
    ∷ (b'g', b'r')
    ∷ (b'u', b'x')
    ∷ (b'u', b'w')
    ∷ (b'u', b'r')
    ∷ []

abbrev pub get_elem? {ℓ} : {A : Type ℓ} → List A → ℕ → Option A
get_elem? [] i = none
get_elem? (x ∷ xs) zero = some x
get_elem? (x ∷ xs) (suc i) = get_elem? xs i

abbrev pub place : ℕ → Option (ℕ × ℕ)
place = get_elem? places

-- Whether a clause's class covers a place, and whether it names its permission.
abbrev pub covers : ℕ → Option (ℕ × ℕ) → Bool
covers ch none = false
covers ch (some (class, _)) = ch == b'a' || ch == class

abbrev pub names : Text → Option (ℕ × ℕ) → Bool
names [] place = false
names (p ∷ perms) none = false
names (p ∷ perms) (some (class, perm)) = p == perm || names perms (some (class, perm))

-- What chmod(1) says of one permission of one class.
abbrev pub changed : ℕ → Text → ℕ → Option (ℕ × ℕ) → Bool → Bool
changed op perms ch at was =
    if covers ch at
    then if op == b'='
      then names perms at
      else if op == b'+'
      then names perms at || was
      else was && not (names perms at)
    else was

pub digit_cases {ℓ} :
    (P : ℕ → Type ℓ)
    → All P (0 ∷ 1 ∷ 2 ∷ 3 ∷ 4 ∷ 5 ∷ 6 ∷ 7 ∷ 8 ∷ [])
    → ((i : ℕ) → P (suc (suc (suc (suc (suc (suc (suc (suc (suc i))))))))))
    → (i : ℕ) → P i
digit_cases P (p0, (_, (_, (_, (_, (_, (_, (_, (_, _))))))))) high zero = p0
digit_cases P (_, (p1, (_, (_, (_, (_, (_, (_, (_, _))))))))) high (suc zero) = p1
digit_cases P (_, (_, (p2, (_, (_, (_, (_, (_, (_, _))))))))) high (suc (suc zero)) = p2
digit_cases P (_, (_, (_, (p3, (_, (_, (_, (_, (_, _))))))))) high (suc (suc (suc zero))) = p3
digit_cases P (_, (_, (_, (_, (p4, (_, (_, (_, (_, _))))))))) high (suc (suc (suc (suc zero)))) = p4
digit_cases P (_, (_, (_, (_, (_, (p5, (_, (_, (_, _))))))))) high
      (suc (suc (suc (suc (suc zero))))) =
    p5
digit_cases P (_, (_, (_, (_, (_, (_, (p6, (_, (_, _))))))))) high
      (suc (suc (suc (suc (suc (suc zero)))))) =
    p6
digit_cases P (_, (_, (_, (_, (_, (_, (_, (p7, (_, _))))))))) high
      (suc (suc (suc (suc (suc (suc (suc zero))))))) =
    p7
digit_cases P (_, (_, (_, (_, (_, (_, (_, (_, (p8, _))))))))) high
      (suc (suc (suc (suc (suc (suc (suc (suc zero)))))))) =
    p8
digit_cases P _ high (suc (suc (suc (suc (suc (suc (suc (suc (suc i))))))))) = high i

pub mask-bit :
    (ch mask : ℕ) → get chmod_masks ch ≡ some mask → (i : ℕ) → bit i mask ≡ covers ch (place i)
unfolding bit get
mask-bit ch mask h =
    digit_cases (λ i. bit i mask ≡ covers ch (place i)) (ground (arith, h))
      λ i. ground (arith, h, bit-zero i)

perm-bit :
    (ch p b : ℕ) (bits : Dict ℕ ℕ)
    → get chmod_bits ch ≡ some bits
    → get bits p ≡ some b
    → (i : ℕ) → bit i b ≡ (covers ch (place i) && names (p ∷ []) (place i))
unfolding bit get
perm-bit ch p b bits h k =
    digit_cases (λ i. bit i b ≡ (covers ch (place i) && names (p ∷ []) (place i)))
      (ground (arith, h, k)) λ i. ground (arith, h, k, bit-zero i)

names-cons :
    (p : ℕ) (perms : Text) (at : Option (ℕ × ℕ))
    → names (p ∷ perms) at ≡ (names (p ∷ []) at || names perms at)
names-cons p [] none = refl
names-cons p (q ∷ perms) none = refl
names-cons p [] (some at) = ground arith
names-cons p (q ∷ perms) (some at) = ground arith

-- A letter that is a permission, and one that is a class.
abbrev pub IsPerm : ℕ → Type 0
IsPerm p = contains (codes "rwx") p ≡ true

abbrev pub IsClass : ℕ → Type 0
IsClass ch = contains (codes "uoga") ch ≡ true

pub is_some-some {ℓ} : {A : Type ℓ} (o : Option A) → is_some o ≡ true → (a : A) × (o ≡ some a)
is_some-some none h = cc h
is_some-some (some a) h = (a, refl)

perm_found :
    (ch p : ℕ) (bits : Dict ℕ ℕ)
    → get chmod_bits ch ≡ some bits
    → IsPerm p
    → is_some (get bits p) ≡ true
unfolding get contains
perm_found ch p bits h k = ground (arith, h, k)

pub class_found :
    (ch : ℕ)
    → IsClass ch
    → (is_some (get chmod_masks ch) ≡ true) × (is_some (get chmod_bits ch) ≡ true)
unfolding get contains
class_found ch h = ground (arith, h)

-- Digit `i` of the permissions of a class that a clause names.
abbrev pub named : ℕ → Text → ℕ → Bool
named ch perms i = covers ch (place i) && names perms (place i)

pub or_bits-bit :
    (ch : ℕ) (bits : Dict ℕ ℕ) (perms : Text) (acc : ℕ)
    → get chmod_bits ch ≡ some bits
    → All IsPerm perms
    → (n : ℕ) × (or_bits bits acc perms ≡ mode n)
      × ((i : ℕ) → bit i n ≡ (bit i acc || named ch perms i))
unfolding or_bits
or_bits-bit ch bits [] acc h all = (acc, refl, λ i. ground arith)
or_bits-bit ch bits (p ∷ perms) acc h (is_perm, all) =
    let (b, e) = is_some-some (get bits p) (perm_found ch p bits h is_perm) in
    let (n, r, each) = or_bits-bit ch bits perms (bit_or acc b) h all in
    (
      n,
      rw (e, or_bits) r,
      λ i.
          ground (
            arith,
            each i,
            bit-or i acc b,
            perm-bit ch p b bits h e i,
            names-cons p perms (place i),
          ),
    )

pub combine-bit :
    (op mask new_perm_bits m i : ℕ) (ch : ℕ) (perms : Text)
    → bit i mask ≡ covers ch (place i)
    → bit i new_perm_bits ≡ named ch perms i
    → bit i (combine op mask new_perm_bits m) ≡ changed op perms ch (place i) (bit i m)
combine-bit op mask new m i ch perms h k = ground (
  arith,
  h,
  k,
  bit-or i (and_not m mask) new,
  bit-or i (and_not m mask) (bit_or new (bit_and m mask)),
  bit-or i (and_not m mask) (and_not (bit_and m mask) new),
  bit-or i new (bit_and m mask),
  bit-and i m mask,
  bit-and_not i m mask,
  bit-and_not i (bit_and m mask) new,
)
