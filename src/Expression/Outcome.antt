-- ===== src/Expression/Outcome.antt =====
-- lib/common/expression/util.ts: what comparisons, tests for null, `or` and `and` evaluate to
-- against a row.
use genieacs.Common.Eq.{JsString}
use genieacs.Common.Text.{codes}
use genieacs.Common.{
  ◌≡◌, refl, subst, Bool, false, not, ◌&&◌, ◌||◌, some, Bool-cases, inl, inr, arith,
}
use genieacs.Expression.{
  Primitives, Expression, null, boolean, number, text, array, Sign, is_array, is_null, unary,
  binary, op_of, compare_values,
}
use genieacs.Expression.Nodes.{
  compare_node, apply_op, evaluate_callback, is_same, is_larger, is_smaller,
}
use genieacs.Expression.Evaluation.{
  map_expression, LookupResult, found_value, param_node, evaluate_node, evaluate, holds, and, or,
}
use genieacs.Expression.Junctions.{evaluate_value}
use genieacs.Expression.Disjunction.{or-holds}
use genieacs.Expression.Conjunction.{and-holds}
use genieacs.Expression.Bookmark.{param_of}

module _ {N : Type 0} ⦃p : Primitives N⦄ (obj : Expression N → LookupResult N)
    (now : Expression N) where
  -- `e` evaluates to a value, and the value is true just if `b` is
  pub record Gives (e : Expression N) (b : Bool) : Type 0 where
    pub value : Expression N
    pub evaluates : evaluate (some obj) now (λ e. e) e ≡ some value
    pub single : is_array value ≡ false
    pub tells : holds value ≡ b

  abbrev pub row_value : JsString → Expression N
  row_value param = found_value (obj (text param))

  pub param_evaluated :
      (param : JsString)
      → evaluate (some obj) now (λ e. e) (param_of param) ≡ some (row_value param)
  unfolding evaluate map_expression evaluate_node param_node op_of
  param_evaluated param = refl

  binary_evaluated :
      (op param : JsString) (b : Expression N)
      → is_array b ≡ false
      → evaluate (some obj) now (λ e. e) (binary op (param_of param) b)
        ≡ evaluate_node (some obj) now (binary op (row_value param) b)
  unfolding evaluate map_expression evaluate_node param_node op_of
  binary_evaluated op param null h = refl
  binary_evaluated op param (boolean b) h = refl
  binary_evaluated op param (number n) h = refl
  binary_evaluated op param (text s) h = refl
  binary_evaluated op param (array l) h = absurd (ground arith)

  unary_evaluated :
      (op param : JsString)
      → evaluate (some obj) now (λ e. e) (unary op (param_of param))
        ≡ evaluate_node (some obj) now (unary op (row_value param))
  unfolding evaluate map_expression evaluate_node param_node op_of
  unary_evaluated op param = refl

  compare_gives :
      (answer : Sign → Bool) (exp a b : Expression N)
      → is_array a ≡ false
      → is_array b ≡ false
      → (is_array (compare_node answer exp a b) ≡ false)
        × (holds (compare_node answer exp a b)
            ≡ (not (is_null a) && not (is_null b) && answer (compare_values a b)))
  unfolding compare_node
  compare_gives answer exp a b h k = elim (Bool-cases (is_null a || is_null b)) [
    | inl nulls ↦ rw (nulls) (refl, ground arith)
    | inr plain ↦ rw (plain, h, k) (refl, ground arith)
  ]

  pub comparison-Gives :
      (op : JsString) (answer : Sign → Bool) (param : JsString) (b : Expression N)
      → ((v : Expression N)
          → evaluate_node (some obj) now (binary op v b)
            ≡ some (compare_node answer (binary op v b) v b))
      → is_array (row_value param) ≡ false
      → is_array b ≡ false
      → Gives (binary op (param_of param) b) (
          not (is_null (row_value param))
          && not (is_null b)
          && answer (compare_values (row_value param) b))
  comparison-Gives op answer param b node h k =
      let v = row_value param in
      let (one, true_if) = compare_gives answer (binary op v b) v b h k in
      record {
        value = compare_node answer (binary op v b) v b;
        evaluates = rw (binary_evaluated op param b k) (node v);
        single = one;
        tells = true_if;
      }

  pub greater_evaluated :
      (v b : Expression N)
      → evaluate_node (some obj) now (binary (codes ">") v b)
        ≡ some (compare_node is_larger (binary (codes ">") v b) v b)
  unfolding evaluate_node evaluate_callback apply_op op_of
  greater_evaluated v b = refl

  pub less_evaluated :
      (v b : Expression N)
      → evaluate_node (some obj) now (binary (codes "<") v b)
        ≡ some (compare_node is_smaller (binary (codes "<") v b) v b)
  unfolding evaluate_node evaluate_callback apply_op op_of
  less_evaluated v b = refl

  pub equal_evaluated :
      (v b : Expression N)
      → evaluate_node (some obj) now (binary (codes "=") v b)
        ≡ some (compare_node is_same (binary (codes "=") v b) v b)
  unfolding evaluate_node evaluate_callback apply_op op_of
  equal_evaluated v b = refl

  pub is_null-Gives :
      (param : JsString)
      → is_array (row_value param) ≡ false
      → Gives (unary (codes "IS NULL") (param_of param)) (is_null (row_value param))
  unfolding evaluate_node evaluate_callback apply_op op_of
  is_null-Gives param h = record {
    value = boolean (is_null (row_value param));
    evaluates = rw (unary_evaluated (codes "IS NULL") param, h) refl;
    single = refl;
    tells = refl;
  }

  pub is_not_null-Gives :
      (param : JsString)
      → is_array (row_value param) ≡ false
      → Gives (unary (codes "IS NOT NULL") (param_of param)) (not (is_null (row_value param)))
  unfolding evaluate_node evaluate_callback apply_op op_of
  is_not_null-Gives param h = record {
    value = boolean (not (is_null (row_value param)));
    evaluates = rw (unary_evaluated (codes "IS NOT NULL") param, h) refl;
    single = refl;
    tells = refl;
  }

  pub null-Gives : Gives null false
  null-Gives = record {
    value = null;
    evaluates = evaluate_value (some obj) now null refl;
    single = refl;
    tells = refl;
  }

  pub or_Gives : (a b : Expression N) (x y : Bool) → Gives a x → Gives b y → Gives (or a b) (x || y)
  or_Gives a b x y g h =
      let (r, e, t, one) = or-holds (some obj) now a b g.value h.value g.evaluates h.evaluates in
      record {
        value = r;
        evaluates = e;
        single = one g.single h.single;
        tells = ground (arith, t, g.tells, h.tells);
      }

  pub and_Gives :
      (a b : Expression N) (x y : Bool)
      → is_null a ≡ false
      → is_null b ≡ false
      → Gives a x
      → Gives b y
      → Gives (and a b) (x && y)
  and_Gives a b x y f k g h =
      let (r, e, t, one) =
        and-holds (some obj) now a b g.value h.value f k g.single h.single g.evaluates
          h.evaluates in
      record { value = r; evaluates = e; single = one; tells = ground (arith, t, g.tells, h.tells) }

  pub Gives-same : (e : Expression N) (a b : Bool) → a ≡ b → Gives e a → Gives e b
  Gives-same e a b h g = subst (λ x. Gives e x) h g
