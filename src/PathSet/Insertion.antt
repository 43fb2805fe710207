-- ===== src/PathSet/Insertion.antt =====
-- lib/common/path-set.ts: `add` keeps the indexes in step.
use genieacs.Common.JsMap
use genieacs.Common.JsMap.{JsMap}
use genieacs.Common.Eq.{JsString, ◌===◌, js_string_eq, ===_iff}
use genieacs.Common.{
  ℕ, suc, ◌-◌, ◌≤◌, ◌<◌, ◌≡◌, refl, sym, subst, ◌∙◌, ap, true, ◌&&◌, ◌||◌, some, [], length,
  length-modify, get_or, modify, ◌==◌, arith, Bool-cases, inl, inr,
}
use genieacs.ParameterPath.{parse_all, ParameterPath, make}
use genieacs.ParameterPath.RoundTrip.{parse_all-make}
use genieacs.PathSet.Sets.{has-add_path}
use genieacs.PathSet.Search.{IsMade, is_stored, fragment_is, IsIndexed}
use genieacs.PathSet.Growth.{
  get_or-modify_self, get_or-modify_ne, grow_lem, grow_length_index, grow_fragment_index,
  grow_sized, length-add_fragments, segment_is_at, has-add_fragments,
}
use genieacs.PathSet.{PathSet, empty, has, add_path, or_empty, grow, insert}

-- The text of a path determines it.
pub make-injective : (p q : ParameterPath) → IsMade p → IsMade q → p.string ≡ q.string → p ≡ q
make-injective p q (mp, pp) (mq, pq) e =
    let same : some p.segments ≡ some q.segments =
      sym (parse_all-make p.segments pp)
      ∙ ap parse_all (
          sym (ap (λ (r : ParameterPath). r.string) mp)
          ∙ e
          ∙ ap (λ (r : ParameterPath). r.string) mq)
      ∙ parse_all-make q.segments pq in
    let segments : p.segments ≡ q.segments = cc in mp ∙ ap make segments ∙ sym mq

pub empty-IsIndexed : IsIndexed empty
unfolding is_stored has JsMap.get
empty-IsIndexed = record {
  sized = refl;
  fits = λ q m h. cc;
  by_length = λ n q m. refl;
  by_fragment = λ i k q m. refl;
  by_text = λ k p h. cc;
}

pub is_stored-insert :
    (p q : ParameterPath) (s : PathSet)
    → is_stored (insert p s) q ≡ (p.string === q.string || is_stored s q)
unfolding is_stored insert
is_stored-insert p q s = ground (arith, JsMap.get-set p.string q.string p s.string_index)

module _ (p : ParameterPath) (s : PathSet) (m : IsMade p) (x : IsIndexed s) where
  abbrev grown : PathSet
  grown = grow (suc (length p.segments) - length s.length_index) s

  grown_holds : length p.segments < length grown.length_index
  grown_holds = omega (arith, (grow_lem (suc (length p.segments) - length s.length_index) s).0)

  grown_keeps : length s.length_index ≤ length grown.length_index
  grown_keeps = omega (arith, (grow_lem (suc (length p.segments) - length s.length_index) s).0)

  grown_sized : length grown.fragment_index ≡ length grown.length_index - 1
  grown_sized = grow_sized (suc (length p.segments) - length s.length_index) s x.sized

  -- A path with the text of the new one is the new one.
  same_path : (q : ParameterPath) → IsMade q → (p.string === q.string) ≡ true → p ≡ q
  same_path q mq e = make-injective p q m mq ((===_iff p.string q.string).0 e)

  sized-insert : length (insert p s).fragment_index ≡ length (insert p s).length_index - 1
  unfolding insert
  sized-insert =
      let holds = grown_holds in
      let sized = grown_sized in
      omega (
        arith,
        length-add_fragments p p.segments grown.fragment_index (omega arith),
        length-modify (length p.segments) (add_path p) grown.length_index,
      )

  fits-insert :
      (q : ParameterPath)
      → IsMade q
      → is_stored (insert p s) q ≡ true
      → length q.segments < length (insert p s).length_index
  unfolding insert
  fits-insert q mq h =
      let holds = grown_holds in
      let keeps = grown_keeps in
      let kept = length-modify (length p.segments) (add_path p) grown.length_index in
      let stored : (p.string === q.string || is_stored s q) ≡ true =
        sym (is_stored-insert p q s) ∙ h in
      elim (Bool-cases (p.string === q.string)) [
        | inl same ↦
            let l : length p.segments ≡ length q.segments =
              ap (λ (r : ParameterPath). length r.segments) (same_path q mq same) in
            omega arith
        | inr other ↦
            let old : is_stored s q ≡ true = ground arith in let l = x.fits q mq old in omega arith
      ]

  by_length-insert :
      (n : ℕ) (q : ParameterPath)
      → IsMade q
      → has (get_or (insert p s).length_index n []) q
        ≡ (is_stored (insert p s) q && length q.segments == n)
  unfolding insert
  by_length-insert n q mq =
      let old =
        ap (λ l. has l q) (grow_length_index (suc (length p.segments) - length s.length_index) n s)
        ∙ x.by_length n q mq in
      let stored = is_stored-insert p q s in
      let lengths : (p.string === q.string) ≡ true → length p.segments ≡ length q.segments =
        λ same. ap (λ (r : ParameterPath). length r.segments) (same_path q mq same) in
      elim (Bool-cases (n == length p.segments)) [
        | inl here ↦
            let e : n ≡ length p.segments = ground arith in
            let new =
              ap (λ l. has l q)
                (ap (λ i. get_or (modify (length p.segments) (add_path p) grown.length_index) i [])
                    e
                  ∙ get_or-modify_self (length p.segments) (add_path p) grown.length_index []
                      grown_holds
                  ∙ ap (λ i. add_path p (get_or grown.length_index i [])) (sym e))
              ∙ has-add_path p q (get_or grown.length_index n []) in
            new ∙ elim (Bool-cases (p.string === q.string)) [
              | inl same ↦ let l = lengths same in ground arith
              | inr other ↦ ground arith
            ]
        | inr elsewhere ↦
            let kept =
              ap (λ l. has l q)
                (get_or-modify_ne (length p.segments) n (add_path p) grown.length_index []
                  elsewhere) in
            kept ∙ elim (Bool-cases (p.string === q.string)) [
              | inl same ↦ let l = lengths same in ground arith
              | inr other ↦ ground arith
            ]
      ]

  by_fragment-insert :
      (i : ℕ) (k : JsString) (q : ParameterPath)
      → IsMade q
      → has (or_empty (JsMap.get k (get_or (insert p s).fragment_index i []))) q
        ≡ (is_stored (insert p s) q && fragment_is q i k)
  unfolding insert
  by_fragment-insert i k q mq =
      let holds = grown_holds in
      let sized = grown_sized in
      let new = has-add_fragments p q p.segments grown.fragment_index i k (omega arith) in
      let old =
        ap (λ index. has (or_empty (JsMap.get k index)) q)
          (grow_fragment_index (suc (length p.segments) - length s.length_index) i s)
        ∙ x.by_fragment i k q mq in
      let stored = is_stored-insert p q s in
      new ∙ elim (Bool-cases (p.string === q.string)) [
        | inl same ↦
            let own : segment_is_at p.segments i k ≡ fragment_is p i k =
              unfold fragment_is in refl in
            let e : fragment_is p i k ≡ fragment_is q i k =
              ap (λ r. fragment_is r i k) (same_path q mq same) in
            ground arith
        | inr other ↦ ground arith
      ]

  by_text-insert :
      (k : JsString) (r : ParameterPath)
      → JsMap.get k (insert p s).string_index ≡ some r
      → (r.string ≡ k) × IsMade r
  unfolding insert
  by_text-insert k r h =
      let read = sym (JsMap.get-set p.string k p s.string_index) ∙ h in
      let found : (p.string === k) ≡ true → some p ≡ some r = λ same. rw same at read in
      elim (Bool-cases (p.string === k)) [
        | inl same ↦
            let found_here = found same in
            let e : p ≡ r = cc in
            let text : r.string ≡ k =
              sym (ap (λ (r : ParameterPath). r.string) e) ∙ (===_iff p.string k).0 same in
            (text, subst IsMade e m)
        | inr other ↦ x.by_text k r (rw other at read)
      ]

  -- Inserting a path keeps the indexes in step.
  pub insert-IsIndexed : IsIndexed (insert p s)
  insert-IsIndexed = record {
    sized = sized-insert;
    fits = fits-insert;
    by_length = by_length-insert;
    by_fragment = by_fragment-insert;
    by_text = by_text-insert;
  }
