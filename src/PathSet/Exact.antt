-- ===== src/PathSet/Exact.antt =====
-- lib/common/path-set.ts: the whole `find`, the early return for one text included.
use native.Mathlib.Nat.{zero-div}
use genieacs.Common.Words.{sar}
use genieacs.Common.Eq.{◌===◌, js_string_eq, ===_iff, ===_refl}
use genieacs.Common.{
  ℕ, zero, suc, ◌%◌, ◌^◌, ◌<◌, ◌≡◌, refl, sym, ◌∙◌, ap, Bool, true, false, ◌&&◌, ◌||◌, not, Option,
  none, some, List, [], ◌∷◌, length, get_or, get_elem?, ◌==◌, arith, Bool-cases, Option-cases, inl,
  inr, All,
}
use genieacs.ParameterPath.RoundTrip.{IsPlain}
use genieacs.ParameterPath.{ParameterPath, Segment, frag, aliased, no_pairs, make}
use genieacs.PathSet.Search.{
  IsMade, is_some, is_stored, segment_is, fragment_is, IsIndexed, matches_at, matches_below,
  matches, has-find_indexed,
}
use genieacs.PathSet.Insertion.{make-injective}
use genieacs.PathSet.Adding.{made_alias}
use genieacs.PathSet.{PathList, PathSet, has, get, find, fragment_of, wildcard_at, to_path_list}

no_wildcard_at : (path : ParameterPath) (i : ℕ) → path.wildcard ≡ 0 → wildcard_at path i ≡ false
unfolding sar
no_wildcard_at path i e = rw (e, zero-div (2 ^ (i % 32)))

-- Lists of plain segments with the same fragments are equal.
same_segments :
    (a b : List Segment)
    → All IsPlain a
    → All IsPlain b
    → length a ≡ length b
    → ((i : ℕ)
        → i < length a
        → segment_is (get_elem? b i) (fragment_of (get_or a i (aliased no_pairs))) ≡ true)
    → a ≡ b
same_segments [] [] p q l h = refl
same_segments [] (y ∷ b) p q l h = absurd (omega arith)
same_segments (x ∷ a) [] p q l h = absurd (omega arith)
same_segments (frag s ∷ a) (frag t ∷ b) (f, p) (g, q) l h = rw (
  sym ((===_iff t s).0 (h 0 (omega arith))),
  same_segments a b p q (omega arith) (λ i e. h (suc i) (omega arith)),
)
same_segments (frag s ∷ a) (aliased t ∷ b) p (g, q) l h = absurd g
same_segments (aliased s ∷ a) (y ∷ b) (f, p) q l h = absurd f

own_segment :
    (a : List Segment) (i : ℕ)
    → i < length a
    → segment_is (get_elem? a i) (fragment_of (get_or a i (aliased no_pairs))) ≡ true
own_segment [] i h = absurd (omega arith)
own_segment (x ∷ a) zero h = ===_refl (fragment_of x)
own_segment (x ∷ a) (suc i) h = own_segment a i (omega arith)

module _ (path q : ParameterPath) (subset : Bool)
    (w : (not subset || path.wildcard == 0) ≡ true) where
  matches_at_exact :
      (i : ℕ)
      → matches_at path false subset q i
        ≡ fragment_is q i (fragment_of (get_or path.segments i (aliased no_pairs)))
  unfolding matches_at
  matches_at_exact i = elim (Bool-cases subset) [
    | inl wanted ↦
        let z : path.wildcard ≡ 0 = ground arith in let n = no_wildcard_at path i z in ground arith
    | inr unwanted ↦ ground arith
  ]

  matches_below-fragment_is :
      (n i : ℕ)
      → i < n
      → matches_below n path false subset q ≡ true
      → fragment_is q i (fragment_of (get_or path.segments i (aliased no_pairs))) ≡ true
  unfolding matches_below
  matches_below-fragment_is zero i l h = absurd (omega arith)
  matches_below-fragment_is (suc n) i l h = elim (Bool-cases (i == n)) [
    | inl here ↦ let e : i ≡ n = ground arith in rw e (ground (arith, matches_at_exact n))
    | inr below ↦ matches_below-fragment_is n i (ground arith) (ground arith)
  ]

  fragment_is-matches_below :
      (n : ℕ)
      → ((i : ℕ)
          → i < n
          → fragment_is q i (fragment_of (get_or path.segments i (aliased no_pairs))) ≡ true)
      → matches_below n path false subset q ≡ true
  unfolding matches_below
  fragment_is-matches_below zero h = refl
  fragment_is-matches_below (suc n) h = ground (
    arith,
    matches_at_exact n,
    h n (omega arith),
    fragment_is-matches_below n (λ i l. h i (omega arith)),
  )

  -- A search for one text: the path itself and no other.
  matches_exact :
      IsMade path
      → IsMade q
      → matches path false subset (length path.segments) q ≡ (path.string === q.string)
  unfolding matches fragment_is
  matches_exact m k = elim (Bool-cases (path.string === q.string)) [
    | inl same ↦
        let e : path ≡ q = make-injective path q m k ((===_iff path.string q.string).0 same) in
        let l : length path.segments ≡ length q.segments =
          ap (λ (r : ParameterPath). length r.segments) e in
        let own = fragment_is-matches_below (length path.segments) (λ i b.
          ap
            (λ (r : ParameterPath).
              fragment_is r i (fragment_of (get_or path.segments i (aliased no_pairs))))
            (sym e)
          ∙ own_segment path.segments i b) in
        ground arith
    | inr other ↦ elim (Bool-cases (matches path false subset (length path.segments) q)) [
      | inl wanted ↦
          let l : length path.segments ≡ length q.segments = ground arith in
          let below : matches_below (length path.segments) path false subset q ≡ true =
            ground arith in
          let segments : path.segments ≡ q.segments =
            same_segments path.segments q.segments m.1 k.1 l
              (λ i b. matches_below-fragment_is (length path.segments) i b below) in
          let e : path ≡ q = m.0 ∙ ap make segments ∙ sym k.0 in
          let text : (path.string === q.string) ≡ true =
            (===_iff path.string q.string).1 (ap (λ (r : ParameterPath). r.string) e) in
          ground arith
      | inr unwanted ↦ ground arith
    ]
  ]

stored_same :
    (path q : ParameterPath) (s : PathSet)
    → (path.string === q.string) ≡ true
    → is_stored s q ≡ is_some (get path s)
unfolding is_stored get
stored_same path q s e = rw ((===_iff path.string q.string).0 e)

has-get :
    (path q : ParameterPath) (s : PathSet)
    → IsIndexed s
    → has (to_path_list (get path s)) q ≡ (is_stored s q && path.string === q.string)
unfolding has
has-get path q s x = elim (Option-cases (get path s)) [
  | inl e ↦ rw e (elim (Bool-cases (path.string === q.string)) [
    | inl same ↦ rw (stored_same path q s same, e)
    | inr other ↦ ground arith
  ])
  | inr (p, e) ↦
      let (text, made) = x.by_text path.string p (unfold get in e) in
      rw (e, text)
        (elim (Bool-cases (path.string === q.string)) [
          | inl same ↦ rw (stored_same path q s same, e) (ground arith)
          | inr other ↦ ground arith
        ])
]

-- What `find` gives, as a list.
abbrev pub found : Option PathList → PathList
found none = []
found (some l) = l

-- The whole `find` gives the stored paths that the bits of the path ask for.
pub has-find-matches :
    (path q : ParameterPath) (superset subset : Bool) (limit : ℕ) (s : PathSet)
    → IsMade path
    → IsMade q
    → IsIndexed s
    → has (found (find path superset subset limit s)) q
      ≡ (is_stored s q && matches path superset subset limit q)
unfolding find
has-find-matches path q superset subset limit s m k x =
    let a : (path.alias == 0) ≡ true = rw (made_alias path m) in
    elim (Bool-cases
      (not superset && limit == length path.segments && (not subset || path.wildcard == 0))) [
        | inl exact ↦
            let w : (not subset || path.wildcard == 0) ≡ true = ground arith in
            let n : limit ≡ length path.segments = ground arith in
            let p : superset ≡ false = ground arith in
            rw (find, a, exact)
              (has-get path q s x ∙ rw (n, p) (rw (matches_exact path q subset w m k)))
        | inr general ↦ rw (find, a, general) (has-find_indexed s x path superset subset q k limit)
      ]
