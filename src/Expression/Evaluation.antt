-- ===== src/Expression/Evaluation.antt =====
-- lib/common/expression/parser.ts: `map`; lib/common/expression/util.ts: `evaluate`, `and`, `or` and
-- `extractParams`.
use genieacs.Common.Text.{codes}
use genieacs.Common.{Bool, true, false, not, ◌&&◌, ◌||◌, Option, none, some, if◌then◌else◌}
use genieacs.Expression.{
  Primitives, Expression, Items, null, boolean, number, text, array, empty, item, Op, param_op,
  func_op, op_of, is_array, is_null, append, first, rest, node, truthy,
}
use genieacs.Expression.Nodes.{spliced, is_and, is_or, equals_text, evaluate_callback}

module _ {N : Type 0} (callback : Expression N → Option (Expression N)) where
  -- `map`: the operands first, then the expression itself; `none` when a callback throws
  unfoldable mutual
    pub map_expression : Expression N → Option (Expression N)
    map_expression (array l) = elim (map_operands l) [ none ↦ none | some k ↦ callback (array k) ]
    map_expression null = callback null
    map_expression (boolean b) = callback (boolean b)
    map_expression (number n) = callback (number n)
    map_expression (text s) = callback (text s)

    -- every element of the array but the first one
    pub map_operands : Items N → Option (Items N)
    map_operands empty = some empty
    map_operands (item op l) = elim (map_items l) [ none ↦ none | some k ↦ some (item op k) ]

    pub map_items : Items N → Option (Items N)
    map_items empty = some empty
    map_items (item e l) = elim (map_expression e) [
      | none ↦ none
      | some f ↦ elim (map_items l) [ none ↦ none | some k ↦ some (item f k) ]
    ]

-- What `obj` has under a name: nothing, a value, or an object with or without a `value` array.
pub data LookupResult (N : Type 0) : Type 0 where
  absent : LookupResult N
  plain : Expression N → LookupResult N
  object : Option (Expression N) → LookupResult N

-- `obj`, when it is given
abbrev pub Lookup : Type 0 → Type 0
Lookup N = Option (Expression N → LookupResult N)

module _ {N : Type 0} ⦃p : Primitives N⦄ where
  abbrev pub found_value : LookupResult N → Expression N
  found_value absent = null
  found_value (plain (array l)) = null
  found_value (plain v) = v
  found_value (object none) = null
  found_value (object (some v)) = v

  unfoldable pub param_node : Lookup N → Expression N → Expression N → Option (Expression N)
  param_node none exp name = evaluate_callback exp
  param_node (some obj) exp (array l) = evaluate_callback exp
  param_node (some obj) exp null = some null
  param_node (some obj) exp name = some (found_value (obj name))

  unfoldable pub now_node : Expression N → Expression N → Expression N → Option (Expression N)
  unfolding evaluate_callback
  now_node now exp name =
      if equals_text name (codes "NOW") && truthy now then some now else evaluate_callback exp

  -- the callback of `evaluate`, after `cb`
  unfoldable pub evaluate_node : Lookup N → Expression N → Expression N → Option (Expression N)
  unfolding param_node now_node op_of
  evaluate_node obj now (array l) = elim (op_of (first l)) [
    | func_op ↦ now_node now (array l) (first (rest l))
    | param_op ↦ param_node obj (array l) (first (rest l))
    | _ ↦ evaluate_callback (array l)
  ]
  evaluate_node obj now e = some e

  -- `evaluate`, with `now` null and `cb` the identity when they are not given
  unfoldable pub evaluate :
      Lookup N → Expression N → (Expression N → Expression N) → Expression N → Option (Expression N)
  unfolding map_expression evaluate_node
  evaluate obj now cb exp = map_expression (λ e. evaluate_node obj now (cb e)) exp

  -- `!Array.isArray(e) && !!e`
  abbrev pub holds : Expression N → Bool
  holds (array l) = false
  holds e = truthy e

  -- the result of an evaluation that ends without an exception and holds
  abbrev pub comes_true : Option (Expression N) → Bool
  comes_true none = false
  comes_true (some e) = holds e

  -- an operand of `and` and `or` as elements of the result
  abbrev pub elements : (Op → Bool) → Expression N → Items N
  elements inner (array l) = spliced inner l
  elements inner e = item e empty

  abbrev pub has_op : (Op → Bool) → Expression N → Bool
  has_op inner (array l) = inner (op_of (first l))
  has_op inner e = false

  unfoldable pub and : Expression N → Expression N → Expression N
  and a b =
      if not (is_null a) && not (truthy a)
      then boolean false
      else if not (is_null b) && not (truthy b)
      then boolean false
      else if not (is_array a) && not (is_array b)
      then (if is_null a || is_null b then null else boolean true)
      else if not (is_array b) && has_op is_and a
      then a
      else if not (is_array a) && has_op is_and b
      then b
      else node (codes "AND") (append (elements is_and a) (elements is_and b))

  unfoldable pub or : Expression N → Expression N → Expression N
  or a b =
      if not (is_array a) && truthy a
      then boolean true
      else if not (is_array b) && truthy b
      then boolean true
      else if not (is_array a) && not (is_array b)
      then (if is_null a || is_null b then null else boolean false)
      else if not (is_array b) && has_op is_or a
      then a
      else if not (is_array a) && has_op is_or b
      then b
      else node (codes "OR") (append (elements is_or a) (elements is_or b))
