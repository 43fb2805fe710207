-- ===== src/Expression/Disjunction.antt =====
-- lib/common/expression/util.ts: what `or` builds, evaluated.
use genieacs.Common.Text.{codes}
use genieacs.Common.{
  ◌≡◌, refl, sym, Bool, true, false, not, ◌&&◌, ◌||◌, none, some, Bool-cases, inl, inr, arith,
}
use genieacs.Expression.{
  Primitives, Expression, Items, null, boolean, number, text, array, empty, item, Op, or_op,
  is_array, is_null, append, node, truthy, op_of,
}
use genieacs.Expression.Nodes.{spliced, is_or, disjuncts, or_node, apply_op, evaluate_callback}
use genieacs.Expression.Evaluation.{Lookup, evaluate_node, evaluate, holds, elements, has_op, or}
use genieacs.Expression.Junctions.{
  both_items, map_items-append, settled, settled-both, prefix-both, HasElements,
  elements-HasElements, evaluate_array, evaluate_value, evaluated_value,
}

is_or-or_op : (o : Op) → is_or o ≡ true → o ≡ or_op
is_or-or_op or_op h = refl
is_or-or_op o h = ground arith

module _ {N : Type 0} ⦃p : Primitives N⦄ where
  abbrev pub any_hold : Items N → Bool
  any_hold empty = false
  any_hold (item e l) = holds e || any_hold l

  disjuncts_hold :
      (l : Items N) → any_hold l ≡ (elim (disjuncts l) [ none ↦ true | some k ↦ false ])
  unfolding disjuncts
  disjuncts_hold empty = refl
  disjuncts_hold (item null l) = ground (arith, disjuncts_hold l)
  disjuncts_hold (item (boolean b) l) = ground (arith, disjuncts_hold l)
  disjuncts_hold (item (number n) l) = ground (arith, disjuncts_hold l)
  disjuncts_hold (item (text s) l) = ground (arith, disjuncts_hold l)
  disjuncts_hold (item (array k) l) = ground (arith, disjuncts_hold l)

  pub holds-or_node : (l : Items N) → holds (or_node l) ≡ any_hold l
  unfolding or_node
  holds-or_node l = rw (disjuncts_hold l) (ground arith)

  any_hold-append : (l m : Items N) → any_hold (append l m) ≡ (any_hold l || any_hold m)
  any_hold-append empty m = refl
  any_hold-append (item e l) m = ground (arith, any_hold-append l m)

  disjuncts-append :
      (l m : Items N) → disjuncts (append l m) ≡ both_items (disjuncts l) (disjuncts m)
  unfolding disjuncts
  disjuncts-append empty m = ground arith
  disjuncts-append (item null l) m = ground (arith, disjuncts-append l m)
  disjuncts-append (item (boolean b) l) m = ground (arith, disjuncts-append l m)
  disjuncts-append (item (number n) l) m = ground (arith, disjuncts-append l m)
  disjuncts-append (item (text s) l) m = ground (arith, disjuncts-append l m)
  disjuncts-append (item (array k) l) m =
      rw (disjuncts-append l m) (prefix-both (spliced is_or k) (disjuncts l) (disjuncts m))

  or_node-settled : (l : Items N) → is_array (or_node l) ≡ not (settled (disjuncts l))
  unfolding or_node
  or_node-settled l = ground arith

  pub or_at_node :
      (obj : Lookup N) (now op : Expression N) (k : Items N)
      → op_of op ≡ or_op
      → evaluate_node obj now (array (item op k)) ≡ some (or_node k)
  unfolding evaluate_node evaluate_callback apply_op
  or_at_node obj now op k h = rw (evaluate_node, h, evaluate_callback, h) refl

  -- the evaluated operands of a disjunction against its value
  abbrev IsDisjunction : Items N → Expression N → Type 0
  IsDisjunction k v = (any_hold k ≡ holds v) × (is_array v ≡ false → settled (disjuncts k) ≡ true)

  or_evaluated :
      (obj : Lookup N) (now op v : Expression N) (k : Items N)
      → is_or (op_of op) ≡ true
      → evaluate_node obj now (array (item op k)) ≡ some v
      → IsDisjunction k v
  or_evaluated obj now op v k o h =
      let e = or_at_node obj now op k (is_or-or_op (op_of op) o) in
      let same : or_node k ≡ v = ground (arith, e, h) in
      rw (sym same) (sym (holds-or_node k), λ value. ground (arith, or_node-settled k, value))

  single-IsDisjunction : (v : Expression N) → IsDisjunction (item v empty) v
  unfolding disjuncts
  single-IsDisjunction null = (refl, λ h. refl)
  single-IsDisjunction (boolean b) = (ground arith, λ h. ground arith)
  single-IsDisjunction (number n) = (ground arith, λ h. ground arith)
  single-IsDisjunction (text s) = (ground arith, λ h. ground arith)
  single-IsDisjunction (array k) = (refl, λ h. absurd (ground arith))

  or-elements :
      (obj : Lookup N) (now a v : Expression N)
      → evaluate obj now (λ e. e) a ≡ some v
      → HasElements is_or IsDisjunction obj now a v
  or-elements obj now a v h =
      elements-HasElements is_or IsDisjunction obj now a v (λ other. single-IsDisjunction v)
        (λ op k o e. or_evaluated obj now op v k o e) refl h

  -- the last return of `or`
  or_node_evaluated :
      (obj : Lookup N) (now a b u v : Expression N)
      → evaluate obj now (λ e. e) a ≡ some u
      → evaluate obj now (λ e. e) b ≡ some v
      → (r : Expression N) × (evaluate obj now
            (λ e. e)
            (node (codes "OR") (append (elements is_or a) (elements is_or b)))
          ≡ some r)
        × (holds r ≡ (holds u || holds v))
        × (is_array u ≡ false → is_array v ≡ false → is_array r ≡ false)
  or_node_evaluated obj now a b u v h k =
      let x = or-elements obj now a u h in
      let y = or-elements obj now b v k in
      let l = append x.operands y.operands in
      (
        or_node l,
        rw
            (
              evaluate_array obj now (text (codes "OR"))
                  (append (elements is_or a) (elements is_or b)),
              map_items-append (evaluate_node obj now) (elements is_or a) (elements is_or b),
              x.mapped,
              y.mapped,
            )
            (or_at_node obj now (text (codes "OR")) l (unfold op_of in refl)),
        rw (holds-or_node l, any_hold-append x.operands y.operands, x.agrees.0, y.agrees.0) refl,
        λ f g.
            rw
              (
                or_node-settled l,
                disjuncts-append x.operands y.operands,
                settled-both (disjuncts x.operands) (disjuncts y.operands) (x.agrees.1 f)
                    (y.agrees.1 g),
              )
              refl,
      )

  -- Both operands evaluate, so what `or` makes of them does, and it holds just if one of them does.
  pub or-holds :
      (obj : Lookup N) (now a b u v : Expression N)
      → evaluate obj now (λ e. e) a ≡ some u
      → evaluate obj now (λ e. e) b ≡ some v
      → (r : Expression N) × (evaluate obj now (λ e. e) (or a b) ≡ some r)
        × (holds r ≡ (holds u || holds v))
        × (is_array u ≡ false → is_array v ≡ false → is_array r ≡ false)
  unfolding or
  or-holds obj now a b u v h k =
      let value_a = evaluated_value obj now a u h in
      let value_b = evaluated_value obj now b v k in
      elim (Bool-cases (not (is_array a) && truthy a)) [
        | inl true_a ↦
            rw (or, true_a)
              (
                boolean true,
                evaluate_value obj now (boolean true) refl,
                ground (arith, value_a),
                λ f g. refl,
              )
        | inr c1 ↦ elim (Bool-cases (not (is_array b) && truthy b)) [
          | inl true_b ↦
              rw (or, c1, true_b)
                (
                  boolean true,
                  evaluate_value obj now (boolean true) refl,
                  ground (arith, value_b),
                  λ f g. refl,
                )
          | inr c2 ↦ elim (Bool-cases (not (is_array a) && not (is_array b))) [
            | inl values ↦
                rw (or, c1, c2, values)
                  elim (Bool-cases (is_null a || is_null b)) [
                    | inl nulls ↦ rw (nulls) (
                      null,
                      evaluate_value obj now null refl,
                      ground (arith, value_a, value_b),
                      λ f g. refl,
                    )
                    | inr plain ↦ rw (plain) (
                      boolean false,
                      evaluate_value obj now (boolean false) refl,
                      ground (arith, value_a, value_b),
                      λ f g. refl,
                    )
                  ]
            | inr c3 ↦ elim (Bool-cases (not (is_array b) && has_op is_or a)) [
              | inl only_a ↦ rw (or, c1, c2, c3, only_a) (u, h, ground (arith, value_b), λ f g. f)
              | inr c4 ↦ elim (Bool-cases (not (is_array a) && has_op is_or b)) [
                | inl only_b ↦
                    rw (or, c1, c2, c3, c4, only_b) (v, k, ground (arith, value_a), λ f g. g)
                | inr c5 ↦ rw (or, c1, c2, c3, c4, c5) (or_node_evaluated obj now a b u v h k)
              ]
            ]
          ]
        ]
      ]
