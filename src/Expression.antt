-- ===== src/Expression.antt =====
-- lib/common/expression/util.ts and lib/common/expression/parser.ts: expressions as the source
-- keeps them, arrays that begin with an operator's name, and the values among them.
pub mod Like
pub mod Reduction
pub mod Nodes
pub mod Evaluation
pub mod Truth
pub mod Junctions
pub mod Disjunction
pub mod Conjunction
pub mod Concatenation
pub mod Bookmark
pub mod Outcome
pub mod Pages
pub mod Samples
mod Tests
use genieacs.Common.Eq.{JsString, js_string_eq, ◌===◌}
use genieacs.Common.Text.{codes, string_lt}
use genieacs.Common.{ℕ, suc, Bool, true, false, [], ◌∷◌, if◌then◌else◌}

-- What the source uses of JavaScript's numbers (doubles) and of its tables of letters.
pub record Primitives (N : Type 0) : Type 0 where
  pub less : N → N → Bool
  pub is_truthy : N → Bool
  pub is_zero : N → Bool
  pub zero_number : N
  pub of_bool : Bool → N
  pub parse_float : JsString → N
  pub to_number : JsString → N
  pub number_text : N → JsString
  pub sum : N → N → N
  pub difference : N → N → N
  pub product : N → N → N
  pub quotient : N → N → N
  pub remainder : N → N → N
  pub truncate : N → N
  pub round_number : N → N
  pub power_of_ten : N → N
  -- multiplication by `1 + Number.EPSILON`
  pub scale_up : N → N
  pub upper : JsString → JsString
  pub lower : JsString → JsString

mutual
  pub data Expression (N : Type 0) : Type 0 where
    null : Expression N
    boolean : Bool → Expression N
    number : N → Expression N
    text : JsString → Expression N
    array : Items N → Expression N

  pub data Items (N : Type 0) : Type 0 where
    empty : Items N
    item : Expression N → Items N → Items N

-- the operators that `evaluateCallback` and its callers tell apart by `exp[0]`
pub data Op : Type 0 where
  case_op func_op param_op and_op or_op not_op is_null_op is_not_null_op : Op
  like_op not_like_op eq_op ne_op gt_op ge_op lt_op le_op : Op
  mul_op div_op add_op sub_op mod_op concat_op other_op : Op

pub data Sign : Type 0 where
  smaller same larger : Sign

op_of_text : JsString → Op
op_of_text s =
    if s === codes "CASE"
    then case_op
    else if s === codes "FUNC"
    then func_op
    else if s === codes "PARAM"
    then param_op
    else if s === codes "AND"
    then and_op
    else if s === codes "OR"
    then or_op
    else if s === codes "NOT"
    then not_op
    else if s === codes "IS NULL"
    then is_null_op
    else if s === codes "IS NOT NULL"
    then is_not_null_op
    else if s === codes "LIKE"
    then like_op
    else if s === codes "NOT LIKE"
    then not_like_op
    else if s === codes "="
    then eq_op
    else if s === codes "<>"
    then ne_op
    else if s === codes ">"
    then gt_op
    else if s === codes ">="
    then ge_op
    else if s === codes "<"
    then lt_op
    else if s === codes "<="
    then le_op
    else if s === codes "*"
    then mul_op
    else if s === codes "/"
    then div_op
    else if s === codes "+"
    then add_op
    else if s === codes "-"
    then sub_op
    else if s === codes "%"
    then mod_op
    else if s === codes "||"
    then concat_op
    else other_op

module _ {N : Type 0} where
  unfoldable pub op_of : Expression N → Op
  unfolding op_of_text
  op_of (text s) = op_of_text s
  op_of _ = other_op

  abbrev pub is_array : Expression N → Bool
  is_array (array l) = true
  is_array _ = false

  -- `e == null`
  abbrev pub is_null : Expression N → Bool
  is_null null = true
  is_null _ = false

  abbrev pub append : Items N → Items N → Items N
  append empty k = k
  append (item e l) k = item e (append l k)

  abbrev pub count : Items N → ℕ
  count empty = 0
  count (item e l) = suc (count l)

  -- `exp[i]` of the items from `i` on; `undefined` and `null` are not told apart
  abbrev pub first : Items N → Expression N
  first empty = null
  first (item e l) = e

  abbrev pub rest : Items N → Items N
  rest empty = empty
  rest (item e l) = l

  abbrev pub node : JsString → Items N → Expression N
  node op l = array (item (text op) l)

  -- the operands of a node whose operator is `op`, or the expression itself
  abbrev pub unary : JsString → Expression N → Expression N
  unary op a = node op (item a empty)

  abbrev pub binary : JsString → Expression N → Expression N → Expression N
  binary op a b = node op (item a (item b empty))

sign_of : Bool → Bool → Sign
sign_of gt lt = if gt then larger else if lt then smaller else same

module _ {N : Type 0} ⦃p : Primitives N⦄ where
  -- `!!e`
  abbrev pub truthy : Expression N → Bool
  truthy null = false
  truthy (boolean b) = b
  truthy (number n) = p.is_truthy n
  truthy (text []) = false
  truthy (text (c ∷ s)) = true
  truthy (array l) = true

  -- `compare`, on values that are neither null nor arrays
  unfoldable pub compare_values : Expression N → Expression N → Sign
  unfolding sign_of
  compare_values (number a) (number b) = sign_of (p.less b a) (p.less a b)
  compare_values (boolean a) (number b) = sign_of (p.less b (p.of_bool a)) (p.less (p.of_bool a) b)
  compare_values (number a) (boolean b) = sign_of (p.less (p.of_bool b) a) (p.less a (p.of_bool b))
  compare_values (boolean a) (boolean b) =
      sign_of (p.less (p.of_bool b) (p.of_bool a)) (p.less (p.of_bool a) (p.of_bool b))
  compare_values (text a) (text b) = sign_of (string_lt b a) (string_lt a b)
  compare_values (text a) _ = larger
  compare_values _ _ = smaller

  -- `toNumber`
  unfoldable pub number_of : Expression N → N
  number_of (number n) = n
  number_of (boolean b) = p.of_bool b
  number_of (text s) = let n = p.parse_float s in if p.is_truthy n then n else p.zero_number
  number_of _ = p.zero_number

  -- `toString`
  unfoldable pub text_of : Expression N → JsString
  text_of (text s) = s
  text_of (number n) = p.number_text n
  text_of (boolean b) = p.number_text (p.of_bool b)
  text_of _ = []
