-- ===== src/Expression/Truth.antt =====
-- lib/common/expression/util.ts: AND, OR and NOT of values as three-valued logic, and when the
-- result of AND and OR holds.
use genieacs.Common.Text.{codes}
use genieacs.Common.{◌≡◌, refl, ap, Bool, true, false, none, some, if◌then◌else◌, arith}
use genieacs.Expression.{
  Primitives, Expression, Items, null, boolean, number, text, array, empty, item, is_array, node,
  unary, truthy, op_of,
}
use genieacs.Expression.Nodes.{
  some_false, conjuncts, and_node, disjuncts, some_null, or_node, not_node, apply_op,
  evaluate_callback,
}

-- The truth of a value in SQL: a comparison with null is unknown.
pub data Truth : Type 0 where
  wrong unknown right : Truth

abbrev pub conjunction : Truth → Truth → Truth
conjunction wrong b = wrong
conjunction unknown wrong = wrong
conjunction unknown b = unknown
conjunction right b = b

abbrev pub disjunction : Truth → Truth → Truth
disjunction right b = right
disjunction unknown right = right
disjunction unknown b = unknown
disjunction wrong b = b

abbrev pub negation : Truth → Truth
negation wrong = right
negation unknown = unknown
negation right = wrong

abbrev pub truth_of_bool : Bool → Truth
truth_of_bool true = right
truth_of_bool false = wrong

module _ {N : Type 0} where
  abbrev pub AllValues : Items N → Type 0
  AllValues empty = Unit
  AllValues (item e l) = (is_array e ≡ false) × AllValues l

  abbrev pub truth_value : Truth → Expression N
  truth_value wrong = boolean false
  truth_value unknown = null
  truth_value right = boolean true

module _ {N : Type 0} ⦃p : Primitives N⦄ where
  abbrev pub truth_of : Expression N → Truth
  truth_of null = unknown
  truth_of e = truth_of_bool (truthy e)

  abbrev pub all_of : Items N → Truth
  all_of empty = right
  all_of (item e l) = conjunction (truth_of e) (all_of l)

  abbrev pub any_of : Items N → Truth
  any_of empty = wrong
  any_of (item e l) = disjunction (truth_of e) (any_of l)

  conjuncts_values :
      (l : Items N) → AllValues l → conjuncts l ≡ (if some_null l then none else some empty)
  unfolding conjuncts some_null
  conjuncts_values empty v = refl
  conjuncts_values (item (null) l) (h, v) = ground (arith, conjuncts_values l v)
  conjuncts_values (item (boolean b) l) (h, v) = ground (arith, conjuncts_values l v)
  conjuncts_values (item (number n) l) (h, v) = ground (arith, conjuncts_values l v)
  conjuncts_values (item (text s) l) (h, v) = ground (arith, conjuncts_values l v)
  conjuncts_values (item (array k) l) (h, v) = absurd (ground arith)

  all_of_tests :
      (l : Items N)
      → AllValues l
      → all_of l ≡ (if some_false l then wrong else if some_null l then unknown else right)
  unfolding some_false some_null
  all_of_tests empty v = refl
  all_of_tests (item (null) l) (h, v) = ground (arith, all_of_tests l v)
  all_of_tests (item (boolean b) l) (h, v) = ground (arith, all_of_tests l v)
  all_of_tests (item (number n) l) (h, v) = ground (arith, all_of_tests l v)
  all_of_tests (item (text s) l) (h, v) = ground (arith, all_of_tests l v)
  all_of_tests (item (array k) l) (h, v) = absurd (ground arith)

  and_node_values : (l : Items N) → AllValues l → and_node l ≡ truth_value (all_of l)
  unfolding and_node
  and_node_values l v = rw (conjuncts_values l v, all_of_tests l v) (ground arith)

  disjuncts_values :
      (l : Items N)
      → AllValues l
      → disjuncts l ≡ (elim (any_of l) [ right ↦ none | _ ↦ some empty ])
  unfolding disjuncts
  disjuncts_values empty v = refl
  disjuncts_values (item (null) l) (h, v) = ground (arith, disjuncts_values l v)
  disjuncts_values (item (boolean b) l) (h, v) = ground (arith, disjuncts_values l v)
  disjuncts_values (item (number n) l) (h, v) = ground (arith, disjuncts_values l v)
  disjuncts_values (item (text s) l) (h, v) = ground (arith, disjuncts_values l v)
  disjuncts_values (item (array k) l) (h, v) = absurd (ground arith)

  any_of_tests :
      (l : Items N)
      → AllValues l
      → ¬ (any_of l ≡ right)
      → any_of l ≡ (if some_null l then unknown else wrong)
  unfolding some_null
  any_of_tests empty v n = refl
  any_of_tests (item (null) l) (h, v) f = ground (arith, any_of_tests l v)
  any_of_tests (item (boolean b) l) (h, v) f = ground (arith, any_of_tests l v)
  any_of_tests (item (number n) l) (h, v) f = ground (arith, any_of_tests l v)
  any_of_tests (item (text s) l) (h, v) f = ground (arith, any_of_tests l v)
  any_of_tests (item (array k) l) (h, v) f = absurd (ground arith)

  or_node_values : (l : Items N) → AllValues l → or_node l ≡ truth_value (any_of l)
  unfolding or_node
  or_node_values l v = rw (or_node, disjuncts_values l v) (ground (arith, any_of_tests l v))

  not_node_values :
      (exp e : Expression N)
      → is_array e ≡ false
      → not_node exp e ≡ truth_value (negation (truth_of e))
  unfolding not_node
  not_node_values exp null h = refl
  not_node_values exp (boolean b) h = ground arith
  not_node_values exp (number n) h = ground arith
  not_node_values exp (text s) h = ground arith
  not_node_values exp (array k) h = absurd (ground arith)

  -- On operands that are values, AND and OR of any number of operands and NOT are conjunction,
  -- disjunction and negation of three-valued logic, in which null is unknown and any other value
  -- is its truthiness.
  pub evaluate_callback_values :
      (l : Items N) (e : Expression N)
      → AllValues l
      → is_array e ≡ false
      → (evaluate_callback (node (codes "AND") l) ≡ some (truth_value (all_of l)))
        × (evaluate_callback (node (codes "OR") l) ≡ some (truth_value (any_of l)))
        × (evaluate_callback (unary (codes "NOT") e) ≡ some (truth_value (negation (truth_of e))))
  unfolding evaluate_callback apply_op op_of
  evaluate_callback_values l e v h =
      (ap some (and_node_values l v), ap some (or_node_values l v), ap some (not_node_values _ e h))
