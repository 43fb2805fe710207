-- ===== src/Expression/Conjunction.antt =====
-- lib/common/expression/util.ts: what `and` builds, evaluated.
use genieacs.Common.Text.{codes}
use genieacs.Common.{
  ◌≡◌, refl, sym, Bool, true, false, not, ◌&&◌, ◌||◌, Option, none, some, Bool-cases, inl, inr,
  arith,
}
use genieacs.Expression.{
  Primitives, Expression, Items, null, boolean, number, text, array, empty, item, Op, and_op,
  is_array, is_null, append, node, truthy, op_of,
}
use genieacs.Expression.Nodes.{
  spliced, is_and, some_false, conjuncts, and_node, apply_op, evaluate_callback,
}
use genieacs.Expression.Evaluation.{Lookup, evaluate_node, evaluate, holds, elements, has_op, and}
use genieacs.Expression.Junctions.{
  both_items, map_items-append, settled, settled-both, prefix-both, HasElements,
  elements-HasElements, evaluate_array, evaluate_value, evaluated_value,
}

is_and-and_op : (o : Op) → is_and o ≡ true → o ≡ and_op
is_and-and_op and_op h = refl
is_and-and_op o h = ground arith

module _ {N : Type 0} ⦃p : Primitives N⦄ where
  -- what AND asks of an operand: to be true, or an AND without operands
  abbrev pub passes : Expression N → Bool
  passes (array k) = elim (spliced is_and k) [ empty ↦ true | item e l ↦ false ]
  passes e = truthy e

  abbrev pub all_pass : Items N → Bool
  all_pass empty = true
  all_pass (item e l) = passes e && all_pass l

  abbrev no_items : Option (Items N) → Bool
  no_items none = false
  no_items (some empty) = true
  no_items (some (item e l)) = false

  no_items-append :
      (s : Items N) (c : Option (Items N)) (f a : Bool)
      → a ≡ (not f && no_items c)
      → ((elim s [ empty ↦ true | item e l ↦ false ]) && a)
        ≡ (not f && no_items (elim c [ none ↦ none | some more ↦ some (append s more) ]))
  no_items-append empty none f a h = h
  no_items-append empty (some k) f a h = h
  no_items-append (item e l) none f a h = ground arith
  no_items-append (item e l) (some k) f a h = ground arith

  conjuncts_pass : (l : Items N) → all_pass l ≡ (not (some_false l) && no_items (conjuncts l))
  unfolding conjuncts some_false
  conjuncts_pass empty = refl
  conjuncts_pass (item null l) = ground (arith, conjuncts_pass l)
  conjuncts_pass (item (boolean b) l) = ground (arith, conjuncts_pass l)
  conjuncts_pass (item (number n) l) = ground (arith, conjuncts_pass l)
  conjuncts_pass (item (text s) l) = ground (arith, conjuncts_pass l)
  conjuncts_pass (item (array k) l) =
      no_items-append (spliced is_and k) (conjuncts l) (some_false l) (all_pass l)
        (conjuncts_pass l)

  pub holds-and_node : (l : Items N) → holds (and_node l) ≡ all_pass l
  unfolding and_node
  holds-and_node l = rw (conjuncts_pass l) (ground arith)

  all_pass-append : (l m : Items N) → all_pass (append l m) ≡ (all_pass l && all_pass m)
  all_pass-append empty m = refl
  all_pass-append (item e l) m = ground (arith, all_pass-append l m)

  conjuncts-append :
      (l m : Items N) → conjuncts (append l m) ≡ both_items (conjuncts l) (conjuncts m)
  unfolding conjuncts
  conjuncts-append empty m = ground arith
  conjuncts-append (item null l) m = ground (arith, conjuncts-append l m)
  conjuncts-append (item (boolean b) l) m = ground (arith, conjuncts-append l m)
  conjuncts-append (item (number n) l) m = ground (arith, conjuncts-append l m)
  conjuncts-append (item (text s) l) m = ground (arith, conjuncts-append l m)
  conjuncts-append (item (array k) l) m =
      rw (conjuncts-append l m) (prefix-both (spliced is_and k) (conjuncts l) (conjuncts m))

  some_false-append : (l m : Items N) → some_false (append l m) ≡ (some_false l || some_false m)
  unfolding some_false
  some_false-append empty m = refl
  some_false-append (item e l) m = ground (arith, some_false-append l m)

  and_node-settled :
      (l : Items N) → is_array (and_node l) ≡ not (some_false l || settled (conjuncts l))
  unfolding and_node
  and_node-settled l = ground arith

  and_at_node :
      (obj : Lookup N) (now op : Expression N) (k : Items N)
      → op_of op ≡ and_op
      → evaluate_node obj now (array (item op k)) ≡ some (and_node k)
  unfolding evaluate_node evaluate_callback apply_op
  and_at_node obj now op k h = rw (evaluate_node, h, evaluate_callback, h) refl

  settled_and :
      (b c : Bool) (d e : Option (Items N))
      → (b || settled d) ≡ true
      → (c || settled e) ≡ true
      → not ((b || c) || settled (both_items d e)) ≡ false
  settled_and b c d e h k = ground (arith, settled-both d e)

  -- the evaluated operands of a conjunction against its value
  abbrev IsConjunction : Items N → Expression N → Type 0
  IsConjunction k v =
      is_array v ≡ false → (all_pass k ≡ holds v) × ((some_false k || settled (conjuncts k)) ≡ true)

  and_evaluated :
      (obj : Lookup N) (now op v : Expression N) (k : Items N)
      → is_and (op_of op) ≡ true
      → evaluate_node obj now (array (item op k)) ≡ some v
      → IsConjunction k v
  and_evaluated obj now op v k o h =
      let e = and_at_node obj now op k (is_and-and_op (op_of op) o) in
      let same : and_node k ≡ v = ground (arith, e, h) in
      rw (sym same) (λ value. (sym (holds-and_node k), ground (arith, and_node-settled k, value)))

  single-IsConjunction : (v : Expression N) → IsConjunction (item v empty) v
  unfolding conjuncts some_false
  single-IsConjunction null h = (refl, refl)
  single-IsConjunction (boolean b) h = (ground arith, ground arith)
  single-IsConjunction (number n) h = (ground arith, ground arith)
  single-IsConjunction (text s) h = (ground arith, ground arith)
  single-IsConjunction (array k) h = absurd (ground arith)

  and-elements :
      (obj : Lookup N) (now a v : Expression N)
      → evaluate obj now (λ e. e) a ≡ some v
      → HasElements is_and IsConjunction obj now a v
  and-elements obj now a v h =
      elements-HasElements is_and IsConjunction obj now a v (λ other. single-IsConjunction v)
        (λ op k o e. and_evaluated obj now op v k o e) refl h

  falsy_value : (e : Expression N) → truthy e ≡ false → is_array e ≡ false
  falsy_value (array l) h = absurd (ground arith)
  falsy_value e h = refl

  -- the last return of `and`
  and_node_evaluated :
      (obj : Lookup N) (now a b u v : Expression N)
      → is_array u ≡ false
      → is_array v ≡ false
      → evaluate obj now (λ e. e) a ≡ some u
      → evaluate obj now (λ e. e) b ≡ some v
      → (r : Expression N) × (evaluate obj now
            (λ e. e)
            (node (codes "AND") (append (elements is_and a) (elements is_and b)))
          ≡ some r)
        × (holds r ≡ (holds u && holds v))
        × (is_array r ≡ false)
  and_node_evaluated obj now a b u v f g h k =
      let x = and-elements obj now a u h in
      let y = and-elements obj now b v k in
      let l = append x.operands y.operands in
      (
        and_node l,
        rw
            (
              evaluate_array obj now (text (codes "AND"))
                  (append (elements is_and a) (elements is_and b)),
              map_items-append (evaluate_node obj now) (elements is_and a) (elements is_and b),
              x.mapped,
              y.mapped,
            )
            (and_at_node obj now (text (codes "AND")) l (unfold op_of in refl)),
        rw (holds-and_node l, all_pass-append x.operands y.operands, (x.agrees f).0, (y.agrees g).0)
            refl,
        rw
            (
              and_node-settled l,
              some_false-append x.operands y.operands,
              conjuncts-append x.operands y.operands,
            )
            (settled_and (some_false x.operands) (some_false y.operands) (conjuncts x.operands)
              (conjuncts y.operands) (x.agrees f).1 (y.agrees g).1),
      )

  -- Neither operand is null, and both have values: what `and` makes of them has the value true
  -- just if both are true.
  pub and-holds :
      (obj : Lookup N) (now a b u v : Expression N)
      → is_null a ≡ false
      → is_null b ≡ false
      → is_array u ≡ false
      → is_array v ≡ false
      → evaluate obj now (λ e. e) a ≡ some u
      → evaluate obj now (λ e. e) b ≡ some v
      → (r : Expression N) × (evaluate obj now (λ e. e) (and a b) ≡ some r)
        × (holds r ≡ (holds u && holds v))
        × (is_array r ≡ false)
  unfolding and
  and-holds obj now a b u v some_a some_b f g h k =
      let value_a = evaluated_value obj now a u h in
      let value_b = evaluated_value obj now b v k in
      elim (Bool-cases (not (is_null a) && not (truthy a))) [
        | inl false_a ↦
            rw (and, false_a)
              (
                boolean false,
                evaluate_value obj now (boolean false) refl,
                ground (arith, falsy_value a, value_a),
                refl,
              )
        | inr c1 ↦ elim (Bool-cases (not (is_null b) && not (truthy b))) [
          | inl false_b ↦
              rw (and, c1, false_b)
                (
                  boolean false,
                  evaluate_value obj now (boolean false) refl,
                  ground (arith, falsy_value b, value_b),
                  refl,
                )
          | inr c2 ↦ elim (Bool-cases (not (is_array a) && not (is_array b))) [
            | inl values ↦
                rw (and, c1, c2, values, some_a, some_b)
                  (
                    boolean true,
                    evaluate_value obj now (boolean true) refl,
                    ground (arith, value_a, value_b),
                    refl,
                  )
            | inr c3 ↦ elim (Bool-cases (not (is_array b) && has_op is_and a)) [
              | inl only_a ↦ rw (and, c1, c2, c3, only_a) (u, h, ground (arith, value_b), f)
              | inr c4 ↦ elim (Bool-cases (not (is_array a) && has_op is_and b)) [
                | inl only_b ↦ rw (and, c1, c2, c3, c4, only_b) (v, k, ground (arith, value_a), g)
                | inr c5 ↦ rw (and, c1, c2, c3, c4, c5) (and_node_evaluated obj now a b u v f g h k)
              ]
            ]
          ]
        ]
      ]
