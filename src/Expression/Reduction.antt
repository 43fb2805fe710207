-- ===== src/Expression/Reduction.antt =====
-- lib/common/expression/util.ts: `reduce`, which joins neighbouring operands of an operator in
-- rounds until a round joins none.
use genieacs.Common.{
  ℕ, zero, suc, ◌≡◌, ◌≤◌, ◌<◌, refl, Bool-cases, inl, inr, Bool, true, false, Option, none, some,
  if◌then◌else◌, arith,
}
use genieacs.Expression.{Expression, Items, empty, item, array, count}

-- `callback`, with `none` for REDUCE_SKIP
abbrev pub Callback : Type 0 → Type 0
Callback N = Expression N → Expression N → ℕ → Option (Expression N)

module _ {N : Type 0} (callback : Callback N) where
  -- the `for` loop from an operand `a` on: whether it joined any, and the operands afterwards
  unfoldable pub round_from : ℕ → Expression N → Items N → Bool × Items N
  round_from i a empty = (false, item a empty)
  round_from i a (item b empty) = elim (callback a b i) [
    | none ↦ (false, item a (item b empty))
    | some r ↦ (true, item r empty)
  ]
  round_from i a (item b (item c l)) =
      let skipped = round_from (suc i) b (item c l) in
      let joined = round_from (suc i) c l in
      elim (callback a b i) [
        | none ↦ (skipped.0, item a skipped.1)
        | some r ↦ (true, item r joined.1)
      ]

  -- the `while` loop; `none` when the fuel runs out
  unfoldable pub rounds : ℕ → Items N → Option (Items N)
  rounds zero l = none
  rounds (suc n) empty = some empty
  rounds (suc n) (item a l) =
      let again = rounds n (round_from 0 a l).1 in
      if (round_from 0 a l).0 then again else some (item a l)

  abbrev reduced : Expression N → Option (Items N) → Option (Expression N)
  reduced op none = none
  reduced op (some (item a empty)) = some a
  reduced op (some l) = some (array (item op l))

  -- `reduce` of an expression with the operator `op`
  unfoldable pub reduce : Expression N → Items N → Option (Expression N)
  reduce op l = reduced op (rounds (suc (count l)) l)

  round_from-count :
      (i : ℕ) (a : Expression N) (l : Items N)
      → ((round_from i a l).0 ≡ true → count (round_from i a l).1 ≤ count l)
        × ((round_from i a l).0 ≡ false → (round_from i a l).1 ≡ item a l)
        × (count (round_from i a l).1 ≤ suc (count l))
  unfolding round_from
  round_from-count i a empty = ground arith
  round_from-count i a (item b empty) = elim (callback a b i) [
    | none ↦ ground arith
    | some r ↦ ground arith
  ]
  round_from-count i a (item b (item c l)) =
      ground (arith, round_from-count (suc i) b (item c l), round_from-count (suc i) c l)

  pub rounds-suc :
      (n : ℕ) (a : Expression N) (l : Items N)
      → rounds (suc n) (item a l)
        ≡ (if (round_from 0 a l).0 then rounds n (round_from 0 a l).1 else some (item a l))
  unfolding rounds
  rounds-suc n a l = refl

  -- Fuel for one round more than there are operands is enough.
  pub rounds-some :
      (n : ℕ) (l : Items N) → count l < n → (after : Items N) × (rounds n l ≡ some after)
  unfolding rounds
  rounds-some zero l h = absurd (omega arith)
  rounds-some (suc n) empty h = (empty, refl)
  rounds-some (suc n) (item a l) h =
      let (shrinks, _, _) = round_from-count 0 a l in
      elim (Bool-cases (round_from 0 a l).0) [
        | inl joined ↦
            rw (joined) (rounds-some n (round_from 0 a l).1 (omega (arith, shrinks joined)))
        | inr kept ↦ rw (kept) (item a l, refl)
      ]
