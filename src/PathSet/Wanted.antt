-- ===== src/PathSet/Wanted.antt =====
-- lib/common/path-set.ts: what a search asks for, segment by segment, and that the bits of the path
-- that `find` reads say the same.
use genieacs.Common.Eq.{◌===◌, js_string_eq, ===_iff}
use genieacs.Common.{
  ℕ, zero, suc, ◌<◌, ◌≤◌, ◌≡◌, refl, ◌∙◌, ap, Bool, true, false, ◌&&◌, ◌||◌, not, Option, some,
  List, [], ◌∷◌, length, get_or, get_elem?, leb, arith, All, Bool-cases, inl, inr,
}
use genieacs.ParameterPath.RoundTrip.{IsPlain}
use genieacs.ParameterPath.{ParameterPath, Segment, frag, aliased, no_pairs, is_wildcard}
use genieacs.PathSet.{fragment_of, wildcard_at}
use genieacs.PathSet.Search.{IsMade, segment_is, fragment_is, matches_at, matches_below, matches}
use genieacs.PathSet.Wildcards.{passes, wildcard_at-make}

abbrev pub is_star : Segment → Bool
is_star (frag f) = f === (b'*' ∷ [])
is_star (aliased a) = false

abbrev pub is_same_fragment : Segment → Segment → Bool
is_same_fragment (frag f) (frag g) = f === g
is_same_fragment s t = false

-- A level asks for the same fragment; for any under a wildcard, if subsets are asked for; and for a
-- wildcard, if supersets are.
abbrev pub is_wanted_segment : Bool → Bool → Segment → Segment → Bool
is_wanted_segment superset subset s t =
    is_same_fragment s t || (subset && is_star s) || (superset && is_star t)

-- all levels of the first path, which the second one has to have
abbrev pub are_wanted_segments : Bool → Bool → List Segment → List Segment → Bool
are_wanted_segments superset subset [] l = true
are_wanted_segments superset subset (s ∷ p) [] = false
are_wanted_segments superset subset (s ∷ p) (t ∷ l) =
    is_wanted_segment superset subset s t && are_wanted_segments superset subset p l

-- The paths that a search asks for.
unfoldable pub is_wanted : ParameterPath → Bool → Bool → ℕ → ParameterPath → Bool
is_wanted path superset subset limit q =
    are_wanted_segments superset subset path.segments q.segments && leb (length q.segments) limit

-- the test at the indices below `n`
abbrev all_below : (ℕ → Bool) → ℕ → Bool
all_below f zero = true
all_below f (suc n) = f n && all_below f n

all_below-suc : (f : ℕ → Bool) (n : ℕ) → all_below f (suc n) ≡ (f 0 && all_below (λ i. f (suc i)) n)
all_below-suc f zero = refl
all_below-suc f (suc n) = ground (arith, all_below-suc f n)

module _ (superset subset : Bool) where
  abbrev is_wanted_at : Option Segment → Option Segment → Bool
  is_wanted_at (some s) (some t) = is_wanted_segment superset subset s t
  is_wanted_at s t = false

  segments_by_index :
      (p l : List Segment)
      → are_wanted_segments superset subset p l ≡ (
          leb (length p) (length l)
          && all_below (λ i. is_wanted_at (get_elem? p i) (get_elem? l i)) (length p))
  segments_by_index [] l = ground arith
  segments_by_index (s ∷ p) [] = ground arith
  segments_by_index (s ∷ p) (t ∷ l) = ground (
    arith,
    segments_by_index p l,
    all_below-suc (λ i. is_wanted_at (get_elem? (s ∷ p) i) (get_elem? (t ∷ l) i)) (length p),
  )

  -- one level, for the bit that `find` reads
  level_lem :
      (wild : Bool) (s t : Segment)
      → IsPlain s
      → IsPlain t
      → wild ≡ is_wildcard s
      → ((wild && subset)
          || segment_is (some t) (fragment_of s)
          || (not wild && superset && segment_is (some t) (b'*' ∷ [])))
        ≡ is_wanted_segment superset subset s t
  level_lem wild (aliased a) t h k e = absurd h
  level_lem wild (frag f) (aliased a) h k e = absurd k
  level_lem wild (frag f) (frag g) h k e =
      ground (arith, e, ===_iff f g, ===_iff g f, ===_iff f (b'*' ∷ []), ===_iff g (b'*' ∷ []))

-- the segment at an index
record IsAt (l : List Segment) (i : ℕ) : Type 0 where
  segment : Segment
  here : get_elem? l i ≡ some segment
  also : get_or l i (aliased no_pairs) ≡ segment
  plain : IsPlain segment

segments-IsAt : (l : List Segment) (i : ℕ) → All IsPlain l → i < length l → IsAt l i
segments-IsAt [] i a h = absurd (omega arith)
segments-IsAt (s ∷ l) zero (p, a) h = record { segment = s; here = refl; also = refl; plain = p }
segments-IsAt (s ∷ l) (suc i) (p, a) h =
    let x = segments-IsAt l i a (omega arith) in
    record { segment = x.segment; here = x.here; also = x.also; plain = x.plain }

module _ (path q : ParameterPath) (superset subset : Bool) (m : IsMade path) (k : IsMade q)
    (short : length path.segments ≤ 32) (longer : length path.segments ≤ length q.segments) where
  matches_at_lem :
      (i : ℕ)
      → i < length path.segments
      → matches_at path superset subset q i
        ≡ is_wanted_at superset subset (get_elem? path.segments i) (get_elem? q.segments i)
  unfolding matches_at fragment_is
  matches_at_lem i h =
      let x = segments-IsAt path.segments i m.1 h in
      let y = segments-IsAt q.segments i k.1 (omega arith) in
      let wild : wildcard_at path i ≡ is_wildcard x.segment =
        ap (λ (r : ParameterPath). wildcard_at r i) m.0
        ∙ wildcard_at-make path.segments i short (omega arith)
        ∙ ap (passes is_wildcard) x.here in
      rw (matches_at, fragment_is, x.here, x.also, y.here)
        (level_lem superset subset (wildcard_at path i) x.segment y.segment x.plain y.plain wild)

  matches_below_lem :
      (n : ℕ)
      → n ≤ length path.segments
      → matches_below n path superset subset q
        ≡ all_below
            (λ i. is_wanted_at superset subset (get_elem? path.segments i) (get_elem? q.segments i))
            n
  unfolding matches_below
  matches_below_lem zero h = refl
  matches_below_lem (suc n) h =
      rw (matches_below, matches_at_lem n h, matches_below_lem n (omega arith)) refl

-- For a path of at most 32 segments the bits ask for what its segments say.
pub matches-is_wanted :
    (path q : ParameterPath) (superset subset : Bool) (limit : ℕ)
    → IsMade path
    → IsMade q
    → length path.segments ≤ 32
    → matches path superset subset limit q ≡ is_wanted path superset subset limit q
unfolding matches is_wanted
matches-is_wanted path q superset subset limit m k short =
    let indexed = segments_by_index superset subset path.segments q.segments in
    elim (Bool-cases (leb (length path.segments) (length q.segments))) [
      | inr shorter ↦ ground (arith, indexed, shorter)
      | inl longer ↦
          let l : length path.segments ≤ length q.segments = ground (arith, longer) in
          let below =
            matches_below_lem path q superset subset m k short l (length path.segments)
              (omega arith) in
          ground (arith, indexed, longer, below)
    ]
