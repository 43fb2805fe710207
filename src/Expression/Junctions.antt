-- ===== src/Expression/Junctions.antt =====
-- lib/common/expression/util.ts: what `or` and `and` build, evaluated.
use genieacs.Common.{
  ◌≡◌, refl, sym, ap, Bool, true, false, Option, none, some, Bool-cases, Option-cases, inl, inr,
  arith,
}
use genieacs.Expression.{
  Primitives, Expression, Items, null, boolean, number, text, array, empty, item, Op, other_op,
  is_array, append, truthy, op_of,
}
use genieacs.Expression.Evaluation.{
  map_expression, map_items, Lookup, evaluate_node, evaluate, holds, elements, has_op,
}

module _ {N : Type 0} ⦃p : Primitives N⦄ where
  abbrev pub both_items : Option (Items N) → Option (Items N) → Option (Items N)
  both_items none b = none
  both_items (some k) none = none
  both_items (some k) (some n) = some (append k n)

  pub map_items-append :
      (f : Expression N → Option (Expression N)) (l m : Items N)
      → map_items f (append l m) ≡ both_items (map_items f l) (map_items f m)
  unfolding map_expression
  map_items-append f empty m = ground arith
  map_items-append f (item e l) m = ground (arith, map_items-append f l m)

  -- whether a loop of AND or OR leaves no operand unevaluated
  abbrev pub settled : Option (Items N) → Bool
  settled none = true
  settled (some empty) = true
  settled (some (item e l)) = false

  pub settled-both :
      (c d : Option (Items N))
      → settled c ≡ true
      → settled d ≡ true
      → settled (both_items c d) ≡ true
  settled-both none d h k = refl
  settled-both (some empty) none h k = refl
  settled-both (some empty) (some n) h k = k
  settled-both (some (item e l)) d h k = absurd (ground arith)

  append_assoc : (l m n : Items N) → append (append l m) n ≡ append l (append m n)
  append_assoc empty m n = refl
  append_assoc (item e l) m n = ap (λ r. item e r) (append_assoc l m n)

  pub prefix-both :
      (s : Items N) (c d : Option (Items N))
      → (elim (both_items c d) [ none ↦ none | some more ↦ some (append s more) ])
        ≡ both_items (elim c [ none ↦ none | some more ↦ some (append s more) ]) d
  prefix-both s none d = refl
  prefix-both s (some k) none = refl
  prefix-both s (some k) (some n) = ap some (sym (append_assoc s k n))

  -- The operands of `a` in a junction, evaluated: `R` relates them to the value of `a`.
  pub record HasElements (inner : Op → Bool) (R : Items N → Expression N → Type 0) (obj : Lookup N)
      (now a v : Expression N) : Type 0 where
    pub operands : Items N
    pub mapped : map_items (evaluate_node obj now) (elements inner a) ≡ some operands
    pub agrees : R operands v

  elements_single :
      (inner : Op → Bool) (a : Expression N)
      → has_op inner a ≡ false
      → elements inner a ≡ item a empty
  elements_single inner null h = refl
  elements_single inner (boolean b) h = refl
  elements_single inner (number n) h = refl
  elements_single inner (text s) h = refl
  elements_single inner (array k) h = rw (h) refl

  single_mapped :
      (obj : Lookup N) (now a v : Expression N)
      → evaluate obj now (λ e. e) a ≡ some v
      → map_items (evaluate_node obj now) (item a empty) ≡ some (item v empty)
  unfolding evaluate map_expression
  single_mapped obj now a v h = rw (h) refl

  abbrev pub then_node :
      Lookup N → Expression N → Expression N → Option (Items N) → Option (Expression N)
  then_node obj now op none = none
  then_node obj now op (some k) = evaluate_node obj now (array (item op k))

  pub evaluate_array :
      (obj : Lookup N) (now op : Expression N) (l : Items N)
      → evaluate obj now (λ e. e) (array (item op l))
        ≡ then_node obj now op (map_items (evaluate_node obj now) l)
  unfolding evaluate map_expression
  evaluate_array obj now op l = elim (Option-cases (map_items (evaluate_node obj now) l)) [
    | inl stops ↦ rw (stops) refl
    | inr (k, m) ↦ rw (m) refl
  ]

  -- a junction evaluated: its operator and its operands, evaluated
  pub node_operands :
      (obj : Lookup N) (now op v : Expression N) (l : Items N)
      → evaluate obj now (λ e. e) (array (item op l)) ≡ some v
      → (k : Items N) × (map_items (evaluate_node obj now) l ≡ some k)
        × (evaluate_node obj now (array (item op k)) ≡ some v)
  node_operands obj now op v l h =
      let e = evaluate_array obj now op l in
      elim (Option-cases (map_items (evaluate_node obj now) l)) [
        | inl stops ↦ absurd (ground (arith, e, h, stops))
        | inr (k, m) ↦ (k, m, (ground (arith, e, h, m)))
      ]

  single-HasElements :
      (inner : Op → Bool) (R : Items N → Expression N → Type 0) (obj : Lookup N)
      (now a v : Expression N)
      → (has_op inner a ≡ false → R (item v empty) v)
      → evaluate obj now (λ e. e) a ≡ some v
      → has_op inner a ≡ false
      → HasElements inner R obj now a v
  single-HasElements inner R obj now a v one h other = record {
    operands = item v empty;
    mapped = rw (elements_single inner a other) (single_mapped obj now a v h);
    agrees = one other;
  }

  pub elements-HasElements :
      (inner : Op → Bool) (R : Items N → Expression N → Type 0) (obj : Lookup N)
      (now a v : Expression N)
      → (has_op inner a ≡ false → R (item v empty) v)
      → ((op : Expression N) (k : Items N)
          → inner (op_of op) ≡ true
          → evaluate_node obj now (array (item op k)) ≡ some v
          → R k v)
      → inner other_op ≡ false
      → evaluate obj now (λ e. e) a ≡ some v
      → HasElements inner R obj now a v
  unfolding op_of
  elements-HasElements inner R obj now (array (item op l)) v one many not_other h =
      elim (Bool-cases (inner (op_of op))) [
        | inr other ↦ single-HasElements inner R obj now (array (item op l)) v one h other
        | inl same ↦
            let (k, m, e) = node_operands obj now op v l h in
            record { operands = k; mapped = rw (same) m; agrees = many op k same e }
      ]
  elements-HasElements inner R obj now (array empty) v one many not_other h =
      single-HasElements inner R obj now (array empty) v one h not_other
  elements-HasElements inner R obj now a v one many not_other h =
      single-HasElements inner R obj now a v one h refl

  pub evaluate_value :
      (obj : Lookup N) (now e : Expression N)
      → is_array e ≡ false
      → evaluate obj now (λ e. e) e ≡ some e
  unfolding evaluate map_expression
  evaluate_value obj now null h = refl
  evaluate_value obj now (boolean b) h = refl
  evaluate_value obj now (number n) h = refl
  evaluate_value obj now (text s) h = refl
  evaluate_value obj now (array l) h = absurd (ground arith)

  holds_value : (e : Expression N) → is_array e ≡ false → holds e ≡ truthy e
  holds_value null h = refl
  holds_value (boolean b) h = refl
  holds_value (number n) h = refl
  holds_value (text s) h = refl
  holds_value (array l) h = absurd (ground arith)

  pub evaluated_value :
      (obj : Lookup N) (now e v : Expression N)
      → evaluate obj now (λ e. e) e ≡ some v
      → is_array e ≡ false
      → holds v ≡ truthy e
  evaluated_value obj now e v h value =
      let same : e ≡ v = ground (arith, evaluate_value obj now e value, h) in
      rw (sym same) (holds_value e value)
