-- ===== src/Expression/Pages.antt =====
-- lib/common/expression/pagination.ts: the expression of a bookmark selects the rows up to it.
use genieacs.Common.Eq.{JsString}
use genieacs.Common.Text.{codes}
use genieacs.Common.{◌≡◌, refl, Bool, true, false, some, [], ◌∷◌, Bool-cases, inl, inr, arith}
use genieacs.Expression.{
  Primitives, Expression, null, boolean, array, is_array, is_null, unary, binary, truthy,
}
use genieacs.Expression.Nodes.{is_same, is_larger, is_smaller}
use genieacs.Expression.Evaluation.{LookupResult, and, or}
use genieacs.Expression.Junctions.{evaluate_value}
use genieacs.Expression.Bookmark.{
  Bookmark, SortKeys, bookmark_at, is_descending, param_of, descending_step, ascending_step,
  bookmark_to_expression, ascending_order, flip, by_order, is_reached,
}
use genieacs.Expression.Outcome.{
  Gives, row_value, comparison-Gives, greater_evaluated, less_evaluated, equal_evaluated,
  is_null-Gives, is_not_null-Gives, null-Gives, or_Gives, and_Gives, Gives-same,
}

module _ {N : Type 0} ⦃p : Primitives N⦄ (obj : Expression N → LookupResult N)
    (now : Expression N) where
  or_truthy_left : (a b : Expression N) → is_array a ≡ true → truthy (or a b) ≡ true
  unfolding or
  or_truthy_left (array k) (array l) h = refl
  or_truthy_left (array k) b h = ground arith
  or_truthy_left a b h = absurd (ground arith)

  or_truthy_right : (a b : Expression N) → is_array b ≡ true → truthy (or a b) ≡ true
  unfolding or
  or_truthy_right (array k) (array l) h = refl
  or_truthy_right a (array l) h = ground arith
  or_truthy_right a b h = absurd (ground arith)

  and_is_array :
      (a b : Expression N) → is_array a ≡ true → truthy b ≡ true → is_array (and a b) ≡ true
  unfolding and
  and_is_array (array k) (array l) h t = refl
  and_is_array (array k) b h t = ground arith
  and_is_array a b h t = absurd (ground arith)

  array_truthy : (e : Expression N) → is_array e ≡ true → truthy e ≡ true
  array_truthy (array l) h = refl
  array_truthy e h = absurd (ground arith)

  truthy_not_null : (e : Expression N) → truthy e ≡ true → is_null e ≡ false
  truthy_not_null null h = absurd (ground arith)
  truthy_not_null e h = refl

  descending_truthy :
      (param : JsString) (b cur : Expression N)
      → truthy cur ≡ true
      → truthy (descending_step param b cur) ≡ true
  unfolding descending_step
  descending_truthy param b cur t = elim (Bool-cases (is_null b)) [
    | inl missing ↦ rw (missing) (or_truthy_left _ _ refl)
    | inr present ↦
        rw (present)
          (or_truthy_right _ _ (and_is_array (binary (codes "=") (param_of param) b) cur refl t))
  ]

  ascending_truthy :
      (param : JsString) (b cur : Expression N)
      → truthy cur ≡ true
      → truthy (ascending_step param b cur) ≡ true
  unfolding ascending_step
  ascending_truthy param b cur t = elim (Bool-cases (is_null b)) [
    | inl missing ↦
        rw (missing)
          (array_truthy _ (and_is_array (unary (codes "IS NULL") (param_of param)) cur refl t))
    | inr present ↦
        rw (present)
          (or_truthy_right _ _ (and_is_array (binary (codes "=") (param_of param) b) cur refl t))
  ]

  bookmark_truthy :
      (bookmark : Bookmark N) (sort : SortKeys N)
      → truthy (bookmark_to_expression bookmark sort) ≡ true
  unfolding bookmark_to_expression
  bookmark_truthy bookmark [] = refl
  bookmark_truthy bookmark ((param, asc) ∷ sort) =
      let t = bookmark_truthy bookmark sort in
      let b = bookmark_at bookmark param in
      let cur = bookmark_to_expression bookmark sort in
      elim (Bool-cases (is_descending asc)) [
        | inl down ↦ rw (down) (descending_truthy param b cur t)
        | inr up ↦ rw (up) (ascending_truthy param b cur t)
      ]

  descending-Gives :
      (param : JsString) (b cur : Expression N) (later : Bool)
      → is_array (row_value obj now param) ≡ false
      → is_array b ≡ false
      → truthy cur ≡ true
      → Gives obj now cur later
      → Gives obj now
          (descending_step param b cur)
          (by_order (flip (ascending_order (row_value obj now param) b)) later)
  unfolding descending_step
  descending-Gives param b cur later h k t g = elim (Bool-cases (is_null b)) [
    | inl missing ↦ rw (missing) (
        Gives-same obj now _ _ _ (ground arith) (
          or_Gives obj now _ _ _ _ (is_not_null-Gives obj now param h) (
            and_Gives obj now _ _ _ _ refl (truthy_not_null cur t) (is_null-Gives obj now param h)
              g)))
    | inr present ↦ rw (present) (
        Gives-same obj now _ _ _ (ground arith) (
          or_Gives obj now _ _ _ _
            (or_Gives obj now _ _ _ _ (null-Gives obj now) (
              comparison-Gives obj now (codes ">") is_larger param b
                (λ v. greater_evaluated obj now v b) h k))
            (and_Gives obj now _ _ _ _ refl (truthy_not_null cur t)
              (comparison-Gives obj now (codes "=") is_same param b
                (λ v. equal_evaluated obj now v b) h k)
              g)))
  ]

  ascending-Gives :
      (param : JsString) (b cur : Expression N) (later : Bool)
      → is_array (row_value obj now param) ≡ false
      → is_array b ≡ false
      → truthy cur ≡ true
      → Gives obj now cur later
      → Gives obj now
          (ascending_step param b cur)
          (by_order (ascending_order (row_value obj now param) b) later)
  unfolding ascending_step
  ascending-Gives param b cur later h k t g =
      let null_row = is_null-Gives obj now param h in
      elim (Bool-cases (is_null b)) [
        | inl missing ↦ rw (missing) (
            Gives-same obj now _ _ _ (ground arith)
              (and_Gives obj now _ _ _ _ refl (truthy_not_null cur t) null_row g))
        | inr present ↦ rw (present) (
            Gives-same obj now _ _ _ (ground arith) (
              or_Gives obj now _ _ _ _
                (or_Gives obj now _ _ _ _ null_row (
                  comparison-Gives obj now (codes "<") is_smaller param b
                    (λ v. less_evaluated obj now v b) h k))
                (and_Gives obj now _ _ _ _ refl (truthy_not_null cur t)
                  (comparison-Gives obj now (codes "=") is_same param b
                    (λ v. equal_evaluated obj now v b) h k)
                  g)))
      ]

  -- If the values of the row and of the bookmark are no arrays, bookmarkToExpression evaluates
  -- against the row to a value that is true just if the row stands at the bookmark or before it
  -- in the lexicographic order of the sort keys, in which null comes first in an ascending
  -- column and last in a descending one.
  pub bookmark-Gives :
      (bookmark : Bookmark N) (sort : SortKeys N)
      → ((param : JsString) → is_array (row_value obj now param) ≡ false)
      → ((param : JsString) → is_array (bookmark_at bookmark param) ≡ false)
      → Gives obj now
          (bookmark_to_expression bookmark sort)
          (is_reached (row_value obj now) bookmark sort)
  unfolding bookmark_to_expression
  bookmark-Gives bookmark [] h k = record {
    value = boolean true;
    evaluates = evaluate_value (some obj) now (boolean true) refl;
    single = refl;
    tells = refl;
  }
  bookmark-Gives bookmark ((param, asc) ∷ sort) h k =
      let g = bookmark-Gives bookmark sort h k in
      let t = bookmark_truthy bookmark sort in
      let b = bookmark_at bookmark param in
      let cur = bookmark_to_expression bookmark sort in
      let later = is_reached (row_value obj now) bookmark sort in
      elim (Bool-cases (is_descending asc)) [
        | inl down ↦
            rw (is_reached, down) (descending-Gives param b cur later (h param) (k param) t g)
        | inr up ↦ rw (is_reached, up) (ascending-Gives param b cur later (h param) (k param) t g)
      ]
