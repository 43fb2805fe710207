-- ===== src/Session/Digits.antt =====
-- lib/session.ts: the bits of a channel after a provision is taken out.
use native.Mathlib.Nat.{mul-div-le, mul_comm}
use genieacs.Common.Words.{shl, sar, and_bits}
use genieacs.Common.Bits.{bit, bit-or_bits, shl_one}
use genieacs.Common.BitFields.{bit-and_bits, bit_mask, times_double, bit_times, bit_over, bit_le}
use genieacs.Common.{
  ℕ, suc, ◌+◌, ◌-◌, ◌*◌, ◌/◌, ◌%◌, ◌^◌, ◌<◌, ◌≡◌, true, Bool-cases, inl, inr, ltb, if◌then◌else◌,
  arith,
}
use genieacs.Session.{take_digit_out}

upper_digits : (j v : ℕ) → j < 31 → v < 2 ^ 31 → shl (sar v (j + 1)) j ≡ v / 2 ^ (j + 1) * 2 ^ j
unfolding shl sar
upper_digits j v h k =
    let count : (j + 1) % 32 ≡ j + 1 = omega arith in
    let count_back : j % 32 ≡ j = omega arith in
    let positive : ltb v (2 ^ 31) ≡ true = ground arith in
    let next : j + 1 ≡ suc j = omega arith in
    let fits = mul-div-le v (2 ^ suc j) in
    let double = times_double j (v / 2 ^ suc j) in
    let order = mul_comm (2 ^ suc j) (v / 2 ^ suc j) in
    rw (count, count_back, positive, next) (omega (arith, fits, double, order))

pub bit-take_digit_out :
    (i j v : ℕ)
    → j < 31
    → v < 2 ^ 31
    → bit i (take_digit_out j v) ≡ (if ltb i j then bit i v else bit (suc i) v)
unfolding take_digit_out
bit-take_digit_out i j v h k =
    let lower = bit-and_bits i v (2 ^ j - 1) in
    let mask = bit_mask i j in
    let upper = bit_times i j (v / 2 ^ (j + 1)) in
    let over = bit_over (j + 1) (i - j) v in
    rw
      (
        shl_one j (omega arith),
        upper_digits j v h k,
        bit-or_bits i (and_bits v (2 ^ j - 1)) (v / 2 ^ (j + 1) * 2 ^ j),
        lower,
        mask,
        upper,
        over,
      )
      (elim (Bool-cases (ltb i j)) [
        | inl low ↦ rw (low) (omega (arith, bit_le i v))
        | inr high ↦
            let place : i - j + (j + 1) ≡ suc i = ground arith in
            rw (high, place) (omega (arith, bit_le i v))
      ])
