-- ===== src/Common/Decimal.antt =====
-- Decimal texts of natural numbers: no two numbers have the same one, and none holds a dash.
use Prim.Native.Nat.{ℕ, zero, suc, ◌+◌, ◌-◌, ◌*◌, ◌/◌, ◌%◌, ◌<◌}
use mathlib.Core.Path.{◌≡◌, refl, sym, ap, subst, ◌∙◌}
use mathlib.Core.Logic.{inl, inr}
use mathlib.Core.List.{[], ◌∷◌, ◌++◌}
use native.Mathlib.Omega.{arith}
use genieacs.Common.Tests.{ltb, Bool-cases}
use genieacs.Common.Lists.{All, All-append}
use genieacs.Common.Eq.{JsString}
use genieacs.Common.Text.{decimal_from, decimal}

abbrev value_from : ℕ → JsString → ℕ
value_from v [] = v
value_from v (c ∷ s) = value_from (v * 10 + (c - b'0')) s

value_from-append :
    (v c : ℕ) (s : JsString) → value_from v (s ++ c ∷ []) ≡ value_from v s * 10 + (c - b'0')
value_from-append v c [] = refl
value_from-append v c (d ∷ s) = value_from-append (v * 10 + (d - b'0')) c s

value_from-decimal : (n k : ℕ) → k < n → value_from 0 (decimal_from n k) ≡ k
unfolding decimal_from
value_from-decimal zero k h = absurd (omega arith)
value_from-decimal (suc n) k h = elim (Bool-cases (ltb k 10)) [
  | inl small ↦ rw (small) (omega arith)
  | inr large ↦
      rw
        (
          large,
          value_from-append 0 (b'0' + k % 10) (decimal_from n (k / 10)),
          value_from-decimal n (k / 10) (ground arith),
        )
        (omega arith)
]

pub decimal-injective : (j k : ℕ) → decimal j ≡ decimal k → j ≡ k
unfolding decimal
decimal-injective j k h =
    sym (value_from-decimal (suc j) j (omega arith))
    ∙ ap (value_from 0) h
    ∙ value_from-decimal (suc k) k (omega arith)

abbrev pub IsDash : ℕ → Type 0
IsDash c = c ≡ b'-'

decimal_from_dashes : (n k : ℕ) → All (λ c. ¬ IsDash c) (decimal_from n k)
unfolding decimal_from
decimal_from_dashes zero k = tt
decimal_from_dashes (suc n) k = elim (Bool-cases (ltb k 10)) [
  | inl small ↦ rw (small) (λ e. omega arith, tt)
  | inr large ↦ rw (large) (
      All-append (λ c. ¬ IsDash c) (decimal_from n (k / 10)) ((b'0' + k % 10) ∷ [])
        (decimal_from_dashes n (k / 10)) (λ e. omega arith, tt))
]

dash_inside : (r d : JsString) → All (λ c. ¬ IsDash c) (r ++ b'-' ∷ d) → ⊥
dash_inside [] d (n, _) = n refl
dash_inside (c ∷ r) d (_, h) = dash_inside r d h

before_dash :
    (r s d e : JsString)
    → All (λ c. ¬ IsDash c) d
    → All (λ c. ¬ IsDash c) e
    → r ++ b'-' ∷ d ≡ s ++ b'-' ∷ e
    → (r ≡ s) × (d ≡ e)
before_dash [] [] d e m n h = ground (arith, h)
before_dash [] (c ∷ s) d e m n h =
    let same : d ≡ s ++ b'-' ∷ e = ground (arith, h) in
    absurd (dash_inside s e (subst (All (λ c. ¬ IsDash c)) same m))
before_dash (c ∷ r) [] d e m n h =
    let same : r ++ b'-' ∷ d ≡ e = ground (arith, h) in
    absurd (dash_inside r d (subst (All (λ c. ¬ IsDash c)) (sym same) n))
before_dash (c ∷ r) (g ∷ s) d e m n h = ground (arith, before_dash r s d e m n, h)

-- A text, a dash and a number are told apart again.
pub with_decimal-injective :
    (r s : JsString) (j k : ℕ) → r ++ b'-' ∷ decimal j ≡ s ++ b'-' ∷ decimal k → (r ≡ s) × (j ≡ k)
unfolding decimal
with_decimal-injective r s j k h =
    let (same, digits) =
      before_dash r s (decimal j) (decimal k) (decimal_from_dashes (suc j) j)
        (decimal_from_dashes (suc k) k) h in
    (same, decimal-injective j k digits)
