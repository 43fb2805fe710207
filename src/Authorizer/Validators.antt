-- ===== src/Authorizer/Validators.antt =====
-- lib/common/authorizer.ts: what the validator of `getValidator` answers.
use genieacs.Common.Eq.{JsString}
use genieacs.Common.Text.{codes}
use genieacs.Common.{
  ◌≡◌, ◌⊎◌, refl, Bool, false, Option, none, some, Option-cases, inl, inr, List, [], ◌∷◌,
}
use genieacs.Expression.{Primitives, Expression, Items, array, text, empty, item, op_of, other_op}
use genieacs.Expression.Nodes.{evaluate_callback, apply_op}
use genieacs.Expression.Evaluation.{
  Lookup, map_expression, map_items, evaluate_node, evaluate, comes_true, holds,
}
use genieacs.Expression.Junctions.{evaluate_array}
use genieacs.Expression.Disjunction.{holds-or_node, or_at_node}
use genieacs.Authorizer.{
  PermissionSet, validators, to_items, validator_expression, validate, validator,
}

abbrev pub is_accepted : Option Bool → Bool
is_accepted none = false
is_accepted (some b) = b

module _ {N : Type 0} where
  abbrev pub IsText : Expression N → Type 0
  IsText (text s) = Unit
  IsText _ = ⊥

  op_of_other : (e : Expression N) → ¬ IsText e → op_of e ≡ other_op
  unfolding op_of
  op_of_other (text s) h = absurd (h tt)
  op_of_other e h = refl

module _ {N : Type 0} ⦃p : Primitives N⦄ (obj : Lookup N) (now : Expression N) where
  node_kept :
      (v : Expression N) (k : Items N)
      → ¬ IsText v
      → evaluate_node obj now (array (item v k)) ≡ some (array (item v k))
  unfolding evaluate_node evaluate_callback apply_op
  node_kept v k h = rw (evaluate_node, op_of_other v h, evaluate_callback, op_of_other v h) refl

  -- an array that begins with no operator stays an array
  list_evaluated :
      (v : Expression N) (l : Items N)
      → ¬ IsText v
      → (map_items (evaluate_node obj now) (item (array (item v l)) empty) ≡ none)
        ⊎ ((k : Items N) × (map_items (evaluate_node obj now) (item (array (item v l)) empty)
              ≡ some (item (array (item v k)) empty)))
  unfolding map_expression
  list_evaluated v l h = elim (Option-cases (map_items (evaluate_node obj now) l)) [
    | inl stops ↦ inl (rw (stops) refl)
    | inr (k, m) ↦ inr (k, rw (m, node_kept v k h) refl)
  ]

  list_rejected :
      (v w : Expression N) (l : List (Expression N))
      → ¬ IsText v
      → comes_true (evaluate obj now (λ e. e) (validator_expression v (w ∷ l))) ≡ false
  unfolding validator_expression
  list_rejected v w l h =
      let operands = item (array (to_items (v ∷ w ∷ l))) empty in
      elim (list_evaluated v (to_items (w ∷ l)) h) [
        | inl stops ↦ rw (evaluate_array obj now (text (codes "OR")) operands, stops) refl
        | inr (k, m) ↦
            rw
              (
                evaluate_array obj now (text (codes "OR")) operands,
                m,
                or_at_node obj now (text (codes "OR")) (item (array (item v k)) empty)
                    (unfold op_of in refl),
              )
              (holds-or_node (item (array (item v k)) empty))
      ]

  -- what the validators of a resource type decide
  abbrev pub decided : List (Expression N) → Bool
  decided [] = false
  decided (v ∷ []) = comes_true (evaluate obj now (λ e. e) v)
  decided (v ∷ w ∷ l) = false

  abbrev pub BeginsWithNoText : List (Expression N) → Type 0
  BeginsWithNoText [] = Unit
  BeginsWithNoText (v ∷ l) = ¬ IsText v

  result_accepted :
      (r : Option (Expression N))
      → is_accepted (elim r [ none ↦ none | some res ↦ some (holds res) ]) ≡ comes_true r
  result_accepted none = refl
  result_accepted (some res) = refl

  decided_lem :
      (l : List (Expression N)) → BeginsWithNoText l → is_accepted (validate l obj now) ≡ decided l
  unfolding validate validator_expression
  decided_lem [] h = refl
  decided_lem (v ∷ []) h = result_accepted (evaluate obj now (λ e. e) v)
  decided_lem (v ∷ w ∷ l) h =
      rw (validate, result_accepted (evaluate obj now (λ e. e) (validator_expression v (w ∷ l))))
        (list_rejected v w l h)

  -- If the first validator of a resource type is no string, the validator function accepts a
  -- mutation just if there is exactly one validator and that one accepts it: it refuses without
  -- validators, and also with two or more.
  pub validator_lem :
      (resource : JsString) (sets : List (PermissionSet N))
      → BeginsWithNoText (validators resource sets)
      → is_accepted (validator resource obj now sets) ≡ decided (validators resource sets)
  unfolding validator
  validator_lem resource sets h = decided_lem (validators resource sets) h
