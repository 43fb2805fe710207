-- ===== src/Common/Words.antt =====
-- JavaScript's bitwise operators, on the 32-bit pattern of an integer: shift counts are taken
-- modulo 32 and `>>` copies the sign bit.
use Prim.Native.Nat.{ℕ, ◌+◌, ◌-◌, ◌*◌, ◌/◌, ◌%◌, ◌^◌, bit_and, bit_or, bit_xor}
use genieacs.Common.Tests.{ltb, if◌then◌else◌, ◌==◌}

abbrev pub word : ℕ
word = 2 ^ 32

unfoldable pub shl : ℕ → ℕ → ℕ
shl x k = x * 2 ^ (k % 32) % word

unfoldable pub sar : ℕ → ℕ → ℕ
sar x k =
    if ltb x (2 ^ 31)
    then x / 2 ^ (k % 32)
    else (x / 2 ^ (k % 32) + (word - 2 ^ (32 - k % 32))) % word

abbrev pub or_bits : ℕ → ℕ → ℕ
or_bits = bit_or

abbrev pub and_bits : ℕ → ℕ → ℕ
and_bits = bit_and

abbrev pub xor_bits : ℕ → ℕ → ℕ
xor_bits = bit_xor

-- `!!d` as a number
abbrev pub truth_bit : ℕ → ℕ
truth_bit d = if d == 0 then 0 else 1
