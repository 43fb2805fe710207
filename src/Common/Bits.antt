-- ===== src/Common/Bits.antt =====
-- The binary digits of a number, one after the other.
use Prim.Native.Nat.{
  ℕ, zero, suc, ◌+◌, ◌-◌, ◌*◌, ◌/◌, ◌%◌, ◌^◌, ◌≤◌, ◌<◌, max, bit_or-bitwise, digits,
}
use mathlib.Core.Path.{◌≡◌, refl, sym, ◌∙◌, ap}
use native.Mathlib.Omega.{arith}
use native.Mathlib.Nat.{div-div-eq-div-mul, pow-succ', pow-le-pow_right}
use mathlib.Core.Logic.{inl, inr}
use genieacs.Common.Tests.{ltb, if◌then◌else◌, ◌==◌, Bool-cases}
use genieacs.Common.Words.{shl, sar, or_bits}

-- the count of digits to go does not matter once it is large enough
enough_digits :
    (n m a b : ℕ) → a ≤ n → a ≤ m → digits (λ y. y) max n a b ≡ digits (λ y. y) max m a b
enough_digits zero zero a b p q = refl
enough_digits zero (suc m) zero b p q = refl
enough_digits (suc n) zero zero b p q = refl
enough_digits (suc n) (suc m) zero b p q = refl
enough_digits zero (suc m) (suc a) b p q = absurd (omega arith)
enough_digits (suc n) zero (suc a) b p q = absurd (omega arith)
enough_digits (suc n) (suc m) (suc a) b p q =
    ap (λ h. h * 2 + max (suc a % 2) (b % 2))
      (enough_digits n m (suc a / 2) (b / 2) (omega arith) (omega arith))

or_bits-halves : (a b : ℕ) → or_bits a b ≡ or_bits (a / 2) (b / 2) * 2 + max (a % 2) (b % 2)
or_bits-halves zero b = simp bit_or-bitwise (omega arith)
or_bits-halves (suc a) b = omega (
  arith,
  bit_or-bitwise (suc a) b,
  bit_or-bitwise (suc a / 2) (b / 2),
  enough_digits a (suc a / 2) (suc a / 2) (b / 2) (omega arith) (omega arith),
)

-- digit `j` of a number, from the lowest
unfoldable pub bit : ℕ → ℕ → ℕ
bit zero a = a % 2
bit (suc j) a = bit j (a / 2)

pub bit-or_bits : (j a b : ℕ) → bit j (or_bits a b) ≡ max (bit j a) (bit j b)
unfolding bit
bit-or_bits zero a b = omega (arith, or_bits-halves a b)
bit-or_bits (suc j) a b =
    let half : or_bits a b / 2 ≡ or_bits (a / 2) (b / 2) = omega (arith, or_bits-halves a b) in
    rw half (bit-or_bits j (a / 2) (b / 2))

pub bit_zero : (j : ℕ) → bit j 0 ≡ 0
unfolding bit
bit_zero zero = refl
bit_zero (suc j) = bit_zero j

pub bit_power : (j i : ℕ) → bit j (2 ^ i) ≡ (if i == j then 1 else 0)
unfolding bit
bit_power zero zero = refl
bit_power zero (suc i) = ground arith
bit_power (suc j) zero = bit_zero j ∙ ground arith
bit_power (suc j) (suc i) =
    let half : 2 ^ suc i / 2 ≡ 2 ^ i = omega arith in rw half (bit_power j i ∙ ground arith)

pub bit-div : (j a : ℕ) → bit j a ≡ a / 2 ^ j % 2
unfolding bit
bit-div zero a = omega arith
bit-div (suc j) a = bit-div j (a / 2) ∙ rw (div-div-eq-div-mul a 2 (2 ^ j), ← pow-succ' 2 j)

pub sar-bit : (x j : ℕ) → j < 32 → sar x j % 2 ≡ bit j x
unfolding sar
sar-bit x j h =
    let count : j % 32 ≡ j = omega arith in
    let next : 32 - j ≡ suc (31 - j) = omega arith in
    let double = pow-succ' 2 (31 - j) in
    elim (Bool-cases (ltb x (2 ^ 31))) [
      | inl positive ↦ rw (count, positive) (sym (bit-div j x))
      | inr negative ↦ rw (count, negative, next, double, bit-div j x) (omega arith)
    ]

pub shl_one : (i : ℕ) → i < 32 → shl 1 i ≡ 2 ^ i
unfolding shl
shl_one i h =
    let count : i % 32 ≡ i = omega arith in
    let small = pow-le-pow_right {n = 2} (omega arith) {i = i} {j = 31} (omega arith) in
    rw count (omega arith)
