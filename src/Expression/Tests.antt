-- ===== src/Expression/Tests.antt =====
-- Concrete runs of lib/common/expression, and the theorems applied to them.
use genieacs.Common.Eq.{JsString, js_string_eq}
use genieacs.Common.Integer.{ℤ, pos, negsuc}
use genieacs.Common.JsMap.{get}
use genieacs.Common.Text.{codes, decimal}
use genieacs.Common.{◌≡◌, ◌↔◌, refl, true, false, none, some, [], ◌∷◌, arith}
use genieacs.Expression.{
  Expression, Items, null, boolean, number, text, empty, item, is_array, node, unary, binary, op_of,
  text_of,
}
use genieacs.Expression.Samples.{integers}
use genieacs.Expression.Reduction.{round_from, rounds, reduce}
use genieacs.Expression.Nodes.{concat_callback, evaluate_callback}
use genieacs.Expression.Evaluation.{LookupResult, plain, evaluate, and}
use genieacs.Expression.Truth.{evaluate_callback_values}
use genieacs.Expression.Concatenation.{text_view, texts_from, concat_values}
use genieacs.Expression.Like.{parse_like_pattern, like_pattern_to_reg_exp, reg_exp_test, like_test}
use genieacs.Expression.Like.Reading.{Means}
use genieacs.Expression.Like.Meaning.{like_test_iff}
use genieacs.Expression.Bookmark.{
  Bookmark, SortKeys, bookmark_at, bookmark_to_expression, is_reached,
}
use genieacs.Expression.Outcome.{Gives, row_value}
use genieacs.Expression.Pages.{bookmark-Gives}

abbrev E : Type 0
E = Expression ℤ

abbrev three : E
three =
    node (codes "||")
      (item (text (codes "a")) (item (number (pos 12)) (item (text (codes "b")) empty)))

-- `"a" || 12 || "b"`
concatenation : evaluate_callback three ≡ some (text (codes "a12b"))
unfolding evaluate_callback reduce rounds round_from concat_callback text_of decimal op_of
concatenation = refl

abbrev null_and_zero : Items ℤ
null_and_zero = item null (item (number (pos 0)) empty)

evaluate_callback_values_example :
    (evaluate_callback (node (codes "AND") null_and_zero) ≡ some (boolean false))
    × (evaluate_callback (node (codes "OR") null_and_zero) ≡ some null)
    × (evaluate_callback (unary {N = ℤ} (codes "NOT") (text [])) ≡ some (boolean true))
evaluate_callback_values_example =
    evaluate_callback_values null_and_zero (text []) (refl, (refl, tt)) refl

concat_values_example :
    (e : E) × (evaluate_callback three ≡ some e)
    × (text_view e
        ≡ texts_from (text (codes "a")) (item (number (pos 12)) (item (text (codes "b")) empty)))
concat_values_example =
    concat_values (text (codes "a")) (item (number (pos 12)) (item (text (codes "b")) empty))
      (refl, (refl, (refl, tt)))

-- `LIKE 'a%c'`
like_abc : like_test (codes "a%c") [] (codes "abbc") ≡ true
unfolding like_test like_pattern_to_reg_exp reg_exp_test parse_like_pattern
like_abc = refl

-- A backslash becomes a slash in the regular expression.
like_backslash :
    (like_test (b'\\' ∷ []) [] (b'\\' ∷ []) ≡ false)
    × (like_test (b'\\' ∷ []) [] (codes "/") ≡ true)
unfolding like_test
like_backslash = (refl, refl)

like_test_iff_example :
    (like_test (codes "a!%_%c") (codes "!") (codes "a%xbc") ≡ true)
    ↔ Means (codes "!") (codes "a!%_%c") (codes "a%xbc")
like_test_iff_example =
    like_test_iff (codes "a!%_%c") (codes "!") (codes "a%xbc")
      (refl, (refl, (refl, (refl, (refl, tt)))))

abbrev row : E → LookupResult ℤ
row e = plain (number (pos 1))

abbrev mark : Bookmark ℤ
mark = (codes "a", number (pos 2)) ∷ []

mark-values : (param : JsString) → is_array (bookmark_at mark param) ≡ false
unfolding get
mark-values param = ground arith

abbrev columns : SortKeys ℤ
columns = (codes "a", negsuc 0) ∷ (codes "b", pos 1) ∷ []

bookmark-Gives_example :
    Gives row null
      (bookmark_to_expression mark columns)
      (is_reached (row_value row null) mark columns)
bookmark-Gives_example = bookmark-Gives row null mark columns (λ param. refl) mark-values

-- A conjunction forgets a null that is added to it.
and_forgets_null :
    evaluate {N = ℤ} none null
      (λ e. e)
      (and (binary (codes "AND") (boolean true) (boolean true)) null)
    ≡ some (boolean true)
unfolding and evaluate evaluate_callback op_of
and_forgets_null = refl
