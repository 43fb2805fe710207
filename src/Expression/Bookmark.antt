-- ===== src/Expression/Bookmark.antt =====
-- lib/common/expression/pagination.ts: `toBookmark` and `bookmarkToExpression`.
use genieacs.Common.Eq.{JsString, js_string_eq}
use genieacs.Common.JsMap.{JsMap, get, set}
use genieacs.Common.Text.{codes}
use genieacs.Common.{Bool, true, false, none, some, List, [], ◌∷◌, if◌then◌else◌}
use genieacs.Expression.{
  Primitives, Expression, null, boolean, text, Sign, smaller, same, larger, is_null, unary, binary,
  compare_values,
}
use genieacs.Expression.Evaluation.{LookupResult, found_value, and, or}

-- `Bookmark`; a key that is missing reads as null
abbrev pub Bookmark : Type 0 → Type 0
Bookmark N = JsMap JsString (Expression N)

abbrev pub SortKeys : Type 0 → Type 0
SortKeys N = List (JsString × N)

abbrev pub flip : Sign → Sign
flip smaller = larger
flip same = same
flip larger = smaller

-- whether a row is reached, by its place in one column and in the columns after it
abbrev pub by_order : Sign → Bool → Bool
by_order smaller later = true
by_order same later = later
by_order larger later = false

module _ {N : Type 0} ⦃p : Primitives N⦄ where
  -- the loop over `Object.keys(sort)`
  unfoldable pub to_bookmark_from :
      SortKeys N → (JsString → LookupResult N) → Bookmark N → Bookmark N
  to_bookmark_from [] row bookmark = bookmark
  to_bookmark_from ((param, asc) ∷ sort) row bookmark =
      to_bookmark_from sort row (set param (found_value (row param)) bookmark)

  unfoldable pub to_bookmark : SortKeys N → (JsString → LookupResult N) → Bookmark N
  unfolding to_bookmark_from
  to_bookmark sort row = to_bookmark_from sort row []

  abbrev pub bookmark_at : Bookmark N → JsString → Expression N
  bookmark_at bookmark param = elim (get param bookmark) [ none ↦ null | some v ↦ v ]

  abbrev pub is_descending : N → Bool
  is_descending asc = p.less asc p.zero_number

  abbrev pub param_of : JsString → Expression N
  param_of param = unary (codes "PARAM") (text param)

  -- `asc < 0`
  unfoldable pub descending_step : JsString → Expression N → Expression N → Expression N
  descending_step param b cur =
      let f = or null (binary (codes ">") (param_of param) b) in
      if is_null b
      then or (unary (codes "IS NOT NULL") (param_of param))
          (and (unary (codes "IS NULL") (param_of param)) cur)
      else or f (and (binary (codes "=") (param_of param) b) cur)

  unfoldable pub ascending_step : JsString → Expression N → Expression N → Expression N
  ascending_step param b cur =
      let f = unary (codes "IS NULL") (param_of param) in
      let g = or f (binary (codes "<") (param_of param) b) in
      if is_null b then and f cur else or g (and (binary (codes "=") (param_of param) b) cur)

  -- `bookmarkToExpression`: `reduce` over the reversed entries begins with the last one
  unfoldable pub bookmark_to_expression : Bookmark N → SortKeys N → Expression N
  unfolding descending_step ascending_step
  bookmark_to_expression bookmark [] = boolean true
  bookmark_to_expression bookmark ((param, asc) ∷ sort) =
      let cur = bookmark_to_expression bookmark sort in
      let b = bookmark_at bookmark param in
      if is_descending asc then descending_step param b cur else ascending_step param b cur

  -- The order of a column: null comes first ascending, and last descending.
  abbrev pub ascending_order : Expression N → Expression N → Sign
  ascending_order a b =
      if is_null a
      then (if is_null b then same else smaller)
      else if is_null b
      then larger
      else compare_values a b

  -- whether a row stands at the bookmark or before it, in the order of the sort keys
  abbrev pub is_reached : (JsString → Expression N) → Bookmark N → SortKeys N → Bool
  is_reached row bookmark [] = true
  is_reached row bookmark ((param, asc) ∷ sort) =
      let order = ascending_order (row param) (bookmark_at bookmark param) in
      by_order (if is_descending asc then flip order else order) (is_reached row bookmark sort)
