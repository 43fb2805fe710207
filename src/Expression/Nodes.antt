-- ===== src/Expression/Nodes.antt =====
-- lib/common/expression/util.ts: `evaluateCallback`, one definition for each operator. `none` is
-- the TypeError of a LIKE pattern that is no string.
use genieacs.Common.Eq.{JsString, js_string_eq, ◌===◌}
use genieacs.Common.Text.{codes}
use genieacs.Common.{
  zero, suc, Bool, true, false, not, ◌&&◌, ◌||◌, Option, none, some, [], ◌++◌, if◌then◌else◌,
}
use genieacs.Expression.{
  Primitives, Expression, Items, null, boolean, number, text, array, empty, item, Op, case_op,
  func_op, param_op, and_op, or_op, not_op, is_null_op, is_not_null_op, like_op, not_like_op, eq_op,
  ne_op, gt_op, ge_op, lt_op, le_op, mul_op, div_op, add_op, sub_op, mod_op, concat_op, other_op,
  op_of, Sign, smaller, same, larger, is_array, is_null, append, first, rest, node, truthy,
  compare_values, number_of, text_of,
}
use genieacs.Expression.Like.{like_test}
use genieacs.Expression.Reduction.{Callback, reduce}

abbrev pub is_and : Op → Bool
is_and and_op = true
is_and _ = false

abbrev pub is_or : Op → Bool
is_or or_op = true
is_or _ = false

abbrev pub is_not : Op → Bool
is_not not_op = true
is_not _ = false

abbrev pub equals_text : {N : Type 0} → Expression N → JsString → Bool
equals_text (text s) t = s === t
equals_text _ t = false

module _ {N : Type 0} where
  -- the operands of an inner array, when it has the operator already
  abbrev pub spliced : (Op → Bool) → Items N → Items N
  spliced inner l = if inner (op_of (first l)) then rest l else item (array l) empty

abbrev pub is_same : Sign → Bool
is_same same = true
is_same _ = false

abbrev pub is_larger : Sign → Bool
is_larger larger = true
is_larger _ = false

abbrev pub is_smaller : Sign → Bool
is_smaller smaller = true
is_smaller _ = false

module _ {N : Type 0} ⦃p : Primitives N⦄ where
  -- `CASE`: the operands from a condition on, and the whole expression
  unfoldable pub case_node : Expression N → Items N → Expression N
  case_node exp empty = null
  case_node exp (item w empty) = if is_array w then exp else null
  case_node exp (item w (item t l)) =
      let later = case_node exp l in if is_array w then exp else if truthy w then t else later

  -- the loop of `COALESCE`
  unfoldable pub coalesced : Items N → Items N
  coalesced empty = empty
  coalesced (item e l) =
      let later = coalesced l in
      if is_null e then later else if is_array e then item e later else item e empty

  unfoldable pub coalesce_node : Items N → Expression N
  unfolding coalesced
  coalesce_node l = elim (coalesced l) [
    | empty ↦ null
    | item e empty ↦ e
    | item e (item f more) ↦
        node (codes "FUNC") (item (text (codes "COALESCE")) (item e (item f more)))
  ]

  -- `UPPER` and `LOWER` of the operand `e` of `exp`
  abbrev pub letters_node : (JsString → JsString) → Expression N → Expression N → Expression N
  letters_node letters exp e =
      if is_null e then null else if is_array e then exp else text (letters (text_of e))

  -- a value as an operand of `*` and `**`
  abbrev pub to_js_number : Expression N → N
  to_js_number (number n) = n
  to_js_number (boolean b) = p.of_bool b
  to_js_number (text s) = p.to_number s
  to_js_number _ = p.zero_number

  abbrev pub round_value : N → N → N
  round_value n places =
      let d = p.power_of_ten places in p.quotient (p.round_number (p.scale_up (p.product n d))) d

  abbrev pub round_node : Expression N → Expression N → Expression N → Expression N
  round_node exp n places =
      if is_null n || is_null places
      then null
      else if is_array n || is_array places
      then exp
      else number (round_value (to_js_number n) (to_js_number places))

  -- `FUNC`, from the name on
  unfoldable pub func_node : Expression N → Items N → Expression N
  unfolding coalesce_node
  func_node exp l =
      let name = first l in
      let args = rest l in
      if equals_text name (codes "COALESCE")
      then coalesce_node args
      else if equals_text name (codes "UPPER")
      then letters_node p.upper exp (first args)
      else if equals_text name (codes "LOWER")
      then letters_node p.lower exp (first args)
      else if equals_text name (codes "ROUND")
      then round_node exp (first args)
          (elim (rest args) [ empty ↦ number p.zero_number | item places _ ↦ places ])
      else exp

  -- whether some operand is a value that is neither null nor truthy
  unfoldable pub some_false : Items N → Bool
  some_false empty = false
  some_false (item e l) = (not (is_array e) && not (is_null e) && not (truthy e)) || some_false l

  -- the second loop of `AND`; `none` when it meets null
  unfoldable pub conjuncts : Items N → Option (Items N)
  conjuncts empty = some empty
  conjuncts (item null l) = none
  conjuncts (item (array k) l) = elim (conjuncts l) [
    | none ↦ none
    | some more ↦ some (append (spliced is_and k) more)
  ]
  conjuncts (item e l) = conjuncts l

  unfoldable pub and_node : Items N → Expression N
  unfolding some_false conjuncts
  and_node l = if some_false l then boolean false else elim (conjuncts l) [
    | none ↦ null
    | some empty ↦ boolean true
    | some (item e empty) ↦ node (codes "AND") (item e (item (boolean true) empty))
    | some (item e (item f more)) ↦ node (codes "AND") (item e (item f more))
  ]

  -- the loop of `OR`; `none` when it meets a truthy value
  unfoldable pub disjuncts : Items N → Option (Items N)
  disjuncts empty = some empty
  disjuncts (item (array k) l) = elim (disjuncts l) [
    | none ↦ none
    | some more ↦ some (append (spliced is_or k) more)
  ]
  disjuncts (item e l) = if truthy e then none else disjuncts l

  unfoldable pub some_null : Items N → Bool
  some_null empty = false
  some_null (item e l) = is_null e || some_null l

  unfoldable pub or_node : Items N → Expression N
  unfolding disjuncts some_null
  or_node l = elim (disjuncts l) [
    | none ↦ boolean true
    | some empty ↦ if some_null l then null else boolean false
    | some (item e empty) ↦ node (codes "OR") (item e (item (boolean false) empty))
    | some (item e (item f more)) ↦ node (codes "OR") (item e (item f more))
  ]

  unfoldable pub not_node : Expression N → Expression N → Expression N
  not_node exp null = null
  not_node exp (array k) = if is_not (op_of (first k)) then first (rest k) else exp
  not_node exp e = boolean (not (truthy e))

  -- `IS NULL` and, negated, `IS NOT NULL`
  abbrev pub null_test_node : (Bool → Bool) → Expression N → Expression N → Expression N
  null_test_node answer exp e = if is_array e then exp else boolean (answer (is_null e))

  -- the text that `r.test` reads
  abbrev pub tested_text : Expression N → JsString
  tested_text (boolean true) = codes "true"
  tested_text (boolean false) = codes "false"
  tested_text e = text_of e

  -- `esc`, which is compared with single code units and never equals a number or a boolean
  abbrev pub escape_text : Expression N → JsString
  escape_text (text s) = s
  escape_text _ = []

  -- `LIKE` and, negated, `NOT LIKE`; the flag says whether there is an operand for ESCAPE
  abbrev pub like_operands :
      (Bool → Bool)
      → Expression N
      → Expression N
      → Expression N
      → Expression N
      → Bool
      → Option (Expression N)
  like_operands answer exp subject pattern_text esc has_escape =
      if is_array subject || is_array pattern_text || is_array esc
      then some exp
      else if is_null subject || is_null pattern_text || (has_escape && is_null esc)
      then some null
      else elim pattern_text [
        | text s ↦ some (boolean (answer (like_test s (escape_text esc) (tested_text subject))))
        | _ ↦ none
      ]

  unfoldable pub like_node : (Bool → Bool) → Expression N → Items N → Option (Expression N)
  like_node answer exp l =
      let more = rest (rest l) in
      like_operands answer exp (first l) (first (rest l)) (first more)
        (elim more [ empty ↦ false | item _ _ ↦ true ])

  -- the six comparisons
  unfoldable pub compare_node :
      (Sign → Bool) → Expression N → Expression N → Expression N → Expression N
  compare_node answer exp a b =
      if is_null a || is_null b
      then null
      else if is_array a || is_array b
      then exp
      else boolean (answer (compare_values a b))

  -- a callback of `reduce` that joins any two values
  unfoldable pub join_values : (Expression N → Expression N → Expression N) → Callback N
  join_values f a b i =
      if is_null a || is_null b
      then some null
      else if is_array a || is_array b
      then none
      else some (f a b)

  unfoldable pub multiply_callback : Callback N
  unfolding join_values
  multiply_callback = join_values (λ a b. number (p.product (number_of a) (number_of b)))

  unfoldable pub divide_callback : Callback N
  divide_callback a b i =
      let n1 = number_of a in
      let n2 = number_of b in
      if is_null a || is_null b
      then some null
      else if is_array a || is_array b
      then none
      else elim i [
        | suc _ ↦ some (number (p.product n1 n2))
        | zero ↦ if p.is_zero n2 then some null else some (number (p.quotient n1 n2))
      ]

  unfoldable pub add_callback : Callback N
  unfolding join_values
  add_callback = join_values (λ a b. number (p.sum (number_of a) (number_of b)))

  unfoldable pub subtract_callback : Callback N
  subtract_callback a b i =
      if is_null a || is_null b
      then some null
      else if is_array a || is_array b
      then none
      else elim i [
        | zero ↦ some (number (p.difference (number_of a) (number_of b)))
        | suc _ ↦ some (number (p.sum (number_of a) (number_of b)))
      ]

  unfoldable pub modulo_callback : Callback N
  modulo_callback a b i =
      let n2 = p.truncate (number_of b) in
      if is_null a || is_null b
      then some null
      else if is_array a || is_array b
      then none
      else elim i [
        | suc _ ↦ none
        | zero ↦ if p.is_zero n2 then some null else some (number (p.remainder (number_of a) n2))
      ]

  unfoldable pub concat_callback : Callback N
  unfolding join_values
  concat_callback = join_values (λ a b. text (text_of a ++ text_of b))

  unfoldable pub apply_op : Op → Expression N → Items N → Option (Expression N)
  unfolding case_node func_node and_node or_node not_node like_node compare_node reduce
      multiply_callback divide_callback add_callback subtract_callback modulo_callback
      concat_callback
  apply_op case_op exp l = some (case_node exp l)
  apply_op func_op exp l = some (func_node exp l)
  apply_op param_op exp l = if is_null (first l) then some null else some exp
  apply_op and_op exp l = some (and_node l)
  apply_op or_op exp l = some (or_node l)
  apply_op not_op exp l = some (not_node exp (first l))
  apply_op is_null_op exp l = some (null_test_node (λ b. b) exp (first l))
  apply_op is_not_null_op exp l = some (null_test_node not exp (first l))
  apply_op like_op exp l = like_node (λ b. b) exp l
  apply_op not_like_op exp l = like_node not exp l
  apply_op eq_op exp l = some (compare_node is_same exp (first l) (first (rest l)))
  apply_op ne_op exp l = some (compare_node (λ s. not (is_same s)) exp (first l) (first (rest l)))
  apply_op gt_op exp l = some (compare_node is_larger exp (first l) (first (rest l)))
  apply_op ge_op exp l =
      some (compare_node (λ s. not (is_smaller s)) exp (first l) (first (rest l)))
  apply_op lt_op exp l = some (compare_node is_smaller exp (first l) (first (rest l)))
  apply_op le_op exp l = some (compare_node (λ s. not (is_larger s)) exp (first l) (first (rest l)))
  apply_op mul_op exp l = reduce multiply_callback (text (codes "*")) l
  apply_op div_op exp l = reduce divide_callback (text (codes "/")) l
  apply_op add_op exp l = reduce add_callback (text (codes "+")) l
  apply_op sub_op exp l = reduce subtract_callback (text (codes "-")) l
  apply_op mod_op exp l = reduce modulo_callback (text (codes "%")) l
  apply_op concat_op exp l = reduce concat_callback (text (codes "||")) l
  apply_op other_op exp l = some exp

  -- `evaluateCallback`
  unfoldable pub evaluate_callback : Expression N → Option (Expression N)
  unfolding apply_op op_of
  evaluate_callback (array l) = apply_op (op_of (first l)) (array l) (rest l)
  evaluate_callback e = some e
