-- ===== src/Common/BitFields.antt =====
-- The binary digits of masks, multiples, quotients and conjunctions of numbers.
use Prim.Native.Nat.{
  ℕ, zero, suc, ◌+◌, ◌-◌, ◌*◌, ◌/◌, ◌%◌, ◌^◌, ◌≤◌, ◌<◌, min, bit_and-bitwise, digits,
}
use mathlib.Core.Path.{◌≡◌, refl, sym, ◌∙◌, ap}
use native.Mathlib.Omega.{arith}
use native.Mathlib.Nat.{div-div-eq-div-mul, pow-succ', one-le-pow, mul_left_comm, mul-one}
use mathlib.Core.Logic.{inl, inr}
use genieacs.Common.Tests.{Bool-cases, ==_iff, ltb, if◌then◌else◌, ◌==◌}
use genieacs.Common.Words.{shl, or_bits, and_bits}
use genieacs.Common.Bits.{bit, bit-or_bits, bit_zero, bit_power, shl_one}

-- the count of digits to go does not matter once it is large enough
enough_digits :
    (n m a b : ℕ) → a ≤ n → a ≤ m → digits (λ y. zero) min n a b ≡ digits (λ y. zero) min m a b
enough_digits zero zero a b p q = refl
enough_digits zero (suc m) zero b p q = refl
enough_digits (suc n) zero zero b p q = refl
enough_digits (suc n) (suc m) zero b p q = refl
enough_digits zero (suc m) (suc a) b p q = absurd (omega arith)
enough_digits (suc n) zero (suc a) b p q = absurd (omega arith)
enough_digits (suc n) (suc m) (suc a) b p q =
    ap (λ h. h * 2 + min (suc a % 2) (b % 2))
      (enough_digits n m (suc a / 2) (b / 2) (omega arith) (omega arith))

and_bits-halves : (a b : ℕ) → and_bits a b ≡ and_bits (a / 2) (b / 2) * 2 + min (a % 2) (b % 2)
and_bits-halves zero b = simp bit_and-bitwise (omega arith)
and_bits-halves (suc a) b = omega (
  arith,
  bit_and-bitwise (suc a) b,
  bit_and-bitwise (suc a / 2) (b / 2),
  enough_digits a (suc a / 2) (suc a / 2) (b / 2) (omega arith) (omega arith),
)

pub bit-and_bits : (j a b : ℕ) → bit j (and_bits a b) ≡ min (bit j a) (bit j b)
unfolding bit
bit-and_bits zero a b = omega (arith, and_bits-halves a b)
bit-and_bits (suc j) a b =
    let half : and_bits a b / 2 ≡ and_bits (a / 2) (b / 2) = omega (arith, and_bits-halves a b) in
    rw half (bit-and_bits j (a / 2) (b / 2))

pub bit_mask : (i j : ℕ) → bit i (2 ^ j - 1) ≡ (if ltb i j then 1 else 0)
unfolding bit
bit_mask i zero = bit_zero i ∙ ground arith
bit_mask zero (suc j) =
    let positive = one-le-pow j 2 (omega arith) in
    let double = pow-succ' 2 j in
    let odd : (2 ^ suc j - 1) % 2 ≡ 1 = omega arith in odd ∙ ground arith
bit_mask (suc i) (suc j) =
    let half : (2 ^ suc j - 1) / 2 ≡ 2 ^ j - 1 = omega arith in
    rw half (bit_mask i j ∙ ground arith)

pub times_double : (j a : ℕ) → a * 2 ^ suc j ≡ 2 * (a * 2 ^ j)
times_double j a = rw (pow-succ' 2 j) (mul_left_comm a 2 (2 ^ j))

pub bit_times : (i j a : ℕ) → bit i (a * 2 ^ j) ≡ (if ltb i j then 0 else bit (i - j) a)
unfolding bit
bit_times i zero a = rw (mul-one a) (ground arith)
bit_times zero (suc j) a =
    let even : a * 2 ^ suc j % 2 ≡ 0 = rw (times_double j a) (omega arith) in even ∙ ground arith
bit_times (suc i) (suc j) a =
    let half : a * 2 ^ suc j / 2 ≡ a * 2 ^ j = rw (times_double j a) (omega arith) in
    rw half (bit_times i j a ∙ ground arith)

pub bit_over : (k i a : ℕ) → bit i (a / 2 ^ k) ≡ bit (i + k) a
unfolding bit
bit_over zero i a = ground arith
bit_over (suc k) i a =
    let halves : a / 2 ^ suc k ≡ a / 2 / 2 ^ k =
      rw (pow-succ' 2 k) (sym (div-div-eq-div-mul a 2 (2 ^ k))) in
    let next : i + suc k ≡ suc (i + k) = omega arith in rw (halves, next) (bit_over k i (a / 2))

pub all_zero : (n v : ℕ) → v < n → ((i : ℕ) → bit i v ≡ 0) → v ≡ 0
unfolding bit
all_zero zero v h z = absurd (omega arith)
all_zero (suc n) zero h z = refl
all_zero (suc n) (suc v) h z =
    let half = all_zero n (suc v / 2) (omega arith) (λ i. z (suc i)) in
    absurd (omega (arith, half, z 0))

-- A number without digits from `n` on is less than `2 ^ n`, and the other way round.
pub below_power : (n v : ℕ) → ((i : ℕ) → n ≤ i → bit i v ≡ 0) → v < 2 ^ n
unfolding bit
below_power zero v z = omega (arith, all_zero (suc v) v (omega arith) (λ i. z i (omega arith)))
below_power (suc n) v z =
    let half = below_power n (v / 2) (λ i h. z (suc i) (omega arith)) in
    let double = pow-succ' 2 n in omega arith

pub bit_beyond : (n i v : ℕ) → v < 2 ^ n → n ≤ i → bit i v ≡ 0
unfolding bit
bit_beyond zero i v h k = let none_left : v ≡ 0 = omega arith in rw none_left (bit_zero i)
bit_beyond (suc n) zero v h k = absurd (omega arith)
bit_beyond (suc n) (suc i) v h k =
    let double = pow-succ' 2 n in bit_beyond n i (v / 2) (omega arith) (omega arith)

pub bit_le : (i v : ℕ) → bit i v ≤ 1
unfolding bit
bit_le zero v = omega arith
bit_le (suc i) v = bit_le i (v / 2)

-- `v |= 1 << n`
pub bit-mark : (i n v : ℕ) → n < 32 → bit i (or_bits v (shl 1 n)) ≡ (if n == i then 1 else bit i v)
bit-mark i n v h =
    rw (shl_one n h, bit-or_bits i v (2 ^ n), bit_power i n) (ground (arith, bit_le i v))

lone_digit : (i j v : ℕ) → bit j v ≡ 0 → bit i (and_bits v (2 ^ j)) ≡ 0
lone_digit i j v h =
    rw (bit-and_bits i v (2 ^ j), bit_power i j)
      (elim (Bool-cases (j == i)) [
        | inl same ↦ let at_i : j ≡ i = (==_iff j i).0 same in rw (sym at_i, h) (omega arith)
        | inr other ↦ rw (other) (omega arith)
      ])

-- `v & (1 << j)` is zero just if the digit is
pub test_digit : (j v : ℕ) → j < 32 → (and_bits v (shl 1 j) == 0) ≡ (bit j v == 0)
test_digit j v h =
    let both = and_bits v (2 ^ j) in
    let at_j : bit j both ≡ bit j v =
      rw (bit-and_bits j v (2 ^ j), bit_power j j) (ground (arith, bit_le j v)) in
    let back : both ≡ 0 → bit j v ≡ 0 = λ e. sym at_j ∙ ap (bit j) e ∙ bit_zero j in
    let forth : bit j v ≡ 0 → both ≡ 0 =
      λ e. all_zero (suc both) both (omega arith) (λ i. lone_digit i j v e) in
    rw (shl_one j h) (ground (arith, back, forth))
