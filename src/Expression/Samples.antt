-- ===== src/Expression/Samples.antt =====
-- Integers in the place of doubles, for the tests.
use genieacs.Common.Eq.{JsString}
use genieacs.Common.Integer.{ℤ, pos, negsuc, pos_part, neg_part, sub_ℕ, ◌+ℤ◌, ◌-ℤ◌}
use genieacs.Common.Text.{decimal}
use genieacs.Common.{
  ℕ, suc, ◌+◌, ◌*◌, ◌/◌, ◌%◌, ◌^◌, Bool, true, false, [], ◌∷◌, ltb, leb, ◌==◌, ◌&&◌, map,
  if◌then◌else◌,
}
use genieacs.Expression.{Primitives}

abbrev is_zero_integer : ℤ → Bool
is_zero_integer (pos n) = n == 0
is_zero_integer _ = false

abbrev integer_less : ℤ → ℤ → Bool
integer_less a b = ltb (pos_part a + neg_part b) (pos_part b + neg_part a)

abbrev times : ℤ → ℤ → ℤ
times a b =
    sub_ℕ (pos_part a * pos_part b + neg_part a * neg_part b)
      (pos_part a * neg_part b + neg_part a * pos_part b)

abbrev integer_text : ℤ → JsString
integer_text (pos n) = decimal n
integer_text (negsuc n) = b'-' ∷ decimal (suc n)

-- the digits that a text begins with
abbrev leading_digits : ℕ → JsString → ℕ
leading_digits v [] = v
leading_digits v (c ∷ s) =
    let more = leading_digits (v * 10 + (c % 48)) s in if leb b'0' c && leb c b'9' then more else v

abbrev letter_up : ℕ → ℕ
letter_up c = if leb b'a' c && leb c b'z' then c % 32 + 64 else c

abbrev letter_down : ℕ → ℕ
letter_down c = if leb b'A' c && leb c b'Z' then c + 32 else c

instance abbrev pub integers : Primitives ℤ
integers = record {
  less = integer_less;
  is_truthy = λ a. if is_zero_integer a then false else true;
  is_zero = is_zero_integer;
  zero_number = pos 0;
  of_bool = λ b. if b then pos 1 else pos 0;
  parse_float = λ s. pos (leading_digits 0 s);
  to_number = λ s. pos (leading_digits 0 s);
  number_text = integer_text;
  sum = λ a b. a +ℤ b;
  difference = λ a b. a -ℤ b;
  product = times;
  quotient = λ a b. pos (pos_part a / pos_part b);
  remainder = λ a b. pos (pos_part a % pos_part b);
  truncate = λ a. a;
  round_number = λ a. a;
  power_of_ten = λ a. pos (10 ^ pos_part a);
  scale_up = λ a. a;
  upper = map letter_up;
  lower = map letter_down;
}
