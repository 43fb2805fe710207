-- ===== src/Expression/Concatenation.antt =====
-- lib/common/expression/util.ts: `||` of values, which `reduce` joins in rounds of neighbours.
use genieacs.Common.Eq.{JsString}
use genieacs.Common.Text.{codes}
use genieacs.Common.{
  ℕ, zero, suc, ◌≡◌, refl, ap, ◌∙◌, Bool, false, Bool-cases, inl, inr, Option, none, some, [], ◌∷◌,
  ◌++◌, ◌||◌, if◌then◌else◌, arith,
}
use genieacs.Expression.{
  Primitives, Expression, Items, null, boolean, number, text, array, empty, item, is_array, is_null,
  count, node, text_of, op_of,
}
use genieacs.Expression.Nodes.{concat_callback, apply_op, evaluate_callback}
use genieacs.Expression.Reduction.{round_from, rounds, rounds-suc, reduce, rounds-some}
use genieacs.Expression.Truth.{AllValues}

abbrev pub join_texts : Option JsString → Option JsString → Option JsString
join_texts (some s) (some t) = some (s ++ t)
join_texts _ _ = none

append_assoc : (s t u : JsString) → (s ++ t) ++ u ≡ s ++ (t ++ u)
append_assoc [] t u = refl
append_assoc (c ∷ s) t u = ap (λ r. c ∷ r) (append_assoc s t u)

join_texts_assoc :
    (a b c : Option JsString) → join_texts (join_texts a b) c ≡ join_texts a (join_texts b c)
join_texts_assoc (some s) (some t) (some u) = ap some (append_assoc s t u)
join_texts_assoc (some s) (some t) none = refl
join_texts_assoc (some s) none c = ground arith
join_texts_assoc none b c = ground arith

module _ {N : Type 0} ⦃p : Primitives N⦄ where
  -- the text of a value, which null has not
  abbrev pub text_view : Expression N → Option JsString
  text_view null = none
  text_view e = some (text_of e)

  -- the texts of `a` and of all that follow, one after the other; none when one is null
  abbrev pub texts_from : Expression N → Items N → Option JsString
  texts_from a empty = text_view a
  texts_from a (item b l) = join_texts (text_view a) (texts_from b l)

  record IsJoined (a b r : Expression N) : Type 0 where
    single : is_array r ≡ false
    texts : text_view r ≡ join_texts (text_view a) (text_view b)

  text_view_test : (e : Expression N) → text_view e ≡ (if is_null e then none else some (text_of e))
  text_view_test null = refl
  text_view_test (boolean b) = refl
  text_view_test (number n) = refl
  text_view_test (text s) = refl
  text_view_test (array l) = refl

  concat_joins :
      (a b : Expression N) (i : ℕ)
      → is_array a ≡ false
      → is_array b ≡ false
      → (r : Expression N) × (concat_callback a b i ≡ some r) × IsJoined a b r
  unfolding concat_callback text_of
  concat_joins a b i h k = elim (Bool-cases (is_null a || is_null b)) [
    | inl nulls ↦ rw (nulls) (
      null,
      refl,
      record { single = refl; texts = ground (arith, text_view_test a, text_view_test b) },
    )
    | inr plain ↦
        rw (plain, h, k)
          (
            text (text_of a ++ text_of b),
            refl,
            record { single = refl; texts = ground (arith, text_view_test a, text_view_test b) },
          )
  ]

  -- What one round does to the operands from `a` on: it keeps their texts, and when it joins none
  -- there is but one.
  record IsRound (a : Expression N) (l : Items N) (joined : Bool) (after : Items N) : Type 0 where
    head : Expression N
    others : Items N
    shape : after ≡ item head others
    values : AllValues (item head others)
    texts : texts_from head others ≡ texts_from a l
    ended : joined ≡ false → l ≡ empty

  round_from-IsRound :
      (i : ℕ) (a : Expression N) (l : Items N)
      → AllValues (item a l)
      → IsRound a l (round_from concat_callback i a l).0 (round_from concat_callback i a l).1
  unfolding round_from
  round_from-IsRound i a empty v = record {
    head = a;
    others = empty;
    shape = refl;
    values = v;
    texts = refl;
    ended = λ h. refl;
  }
  round_from-IsRound i a (item b empty) (h, (k, _)) =
      let (r, e, j) = concat_joins a b i h k in
      rw (round_from, e)
        (record {
          head = r;
          others = empty;
          shape = refl;
          values = (j.single, tt);
          texts = j.texts;
          ended = λ h. absurd (ground arith);
        })
  round_from-IsRound i a (item b (item c l)) (h, (k, v)) =
      let (r, e, j) = concat_joins a b i h k in
      let n = round_from-IsRound (suc i) c l v in
      rw (round_from, e)
        (record {
          head = r;
          others = (round_from concat_callback (suc i) c l).1;
          shape = refl;
          values = rw (n.shape) (j.single, n.values);
          texts =
              rw (n.shape, n.texts, j.texts)
                (join_texts_assoc (text_view a) (text_view b) (texts_from c l));
          ended = λ h. absurd (ground arith);
        })

  rounds_joined :
      (n : ℕ) (a : Expression N) (l after : Items N)
      → AllValues (item a l)
      → rounds concat_callback n (item a l) ≡ some after
      → (e : Expression N) × (after ≡ item e empty) × (text_view e ≡ texts_from a l)
  rounds_joined zero a l after v h = absurd (unfold rounds in ground (arith, h))
  rounds_joined (suc n) a l after v h =
      let r = round_from-IsRound 0 a l v in
      elim (Bool-cases (round_from concat_callback 0 a l).0) [
        | inl joined ↦
            let again : rounds concat_callback n (item r.head r.others) ≡ some after =
              ground (arith, rounds-suc concat_callback n a l, joined, h, r.shape) in
            let (e, one, texts) = rounds_joined n r.head r.others after r.values again in
            (e, one, texts ∙ r.texts)
        | inr kept ↦ (
          a,
          ground (arith, rounds-suc concat_callback n a l, kept, h, r.ended kept),
          rw (r.ended kept) refl,
        )
      ]

  -- The rounds of reduce end on || of one or more values: the result is null when one of them is
  -- null, and else its text is their texts one after the other.
  pub concat_values :
      (a : Expression N) (l : Items N)
      → AllValues (item a l)
      → (e : Expression N) × (evaluate_callback (node (codes "||") (item a l)) ≡ some e)
        × (text_view e ≡ texts_from a l)
  unfolding evaluate_callback apply_op op_of reduce
  concat_values a l v =
      let (after, h) =
        rounds-some concat_callback (suc (count (item a l))) (item a l) (omega arith) in
      let (e, one, texts) = rounds_joined (suc (count (item a l))) a l after v h in
      (e, rw (h, one) refl, texts)
