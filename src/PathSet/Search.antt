-- ===== src/PathSet/Search.antt =====
-- lib/common/path-set.ts: `find` against a description of the paths that a search asks for.
use genieacs.Common.JsMap
use genieacs.Common.JsMap.{JsMap}
use genieacs.Common.Eq.{JsString, ◌===◌, js_string_eq}
use genieacs.Common.Text.{slice}
use genieacs.Common.{
  ℕ, zero, suc, ◌+◌, ◌-◌, ◌<◌, ◌≡◌, refl, ◌∙◌, Bool, true, false, ◌&&◌, ◌||◌, not, Option, none,
  some, List, [], ◌∷◌, length, length-drop, get_or, get_elem?, drop, take, ltb, leb, ◌==◌,
  if◌then◌else◌, arith, Bool-cases, inl, inr, All,
}
use genieacs.ParameterPath.{ParameterPath, Segment, aliased, no_pairs, make}
use genieacs.ParameterPath.RoundTrip.{IsPlain}
use genieacs.PathSet.Sets.{accepts, accepts_all, accepts-narrow_level, has-found_paths}
use genieacs.PathSet.{
  PathList, PathSet, has, Found, nothing, so_far, or_empty, fragment_of, wildcard_at, narrow_level,
  find_level, find_loop, has_in_some, find_indexed,
}

-- A path as the constructor makes it, with no alias.
abbrev pub IsMade : ParameterPath → Type 0
IsMade q = (q ≡ make q.segments) × All IsPlain q.segments

abbrev pub is_some {ℓ} : {A : Type ℓ} → Option A → Bool
is_some none = false
is_some (some a) = true

unfoldable pub is_stored : PathSet → ParameterPath → Bool
is_stored s q = is_some (JsMap.get q.string s.string_index)

abbrev pub segment_is : Option Segment → JsString → Bool
segment_is none k = false
segment_is (some s) k = fragment_of s === k

-- Segment `i` of `q` is the fragment `k`.
unfoldable pub fragment_is : ParameterPath → ℕ → JsString → Bool
fragment_is q i k = segment_is (get_elem? q.segments i) k

-- What the indexes hold: every stored path under its length, its fragments and its text, and no
-- other path.
pub record IsIndexed (s : PathSet) : Type 0 where
  pub sized : length s.fragment_index ≡ length s.length_index - 1
  pub fits :
      (q : ParameterPath)
      → IsMade q
      → is_stored s q ≡ true
      → length q.segments < length s.length_index
  pub by_length :
      (n : ℕ) (q : ParameterPath)
      → IsMade q
      → has (get_or s.length_index n []) q ≡ (is_stored s q && length q.segments == n)
  pub by_fragment :
      (i : ℕ) (k : JsString) (q : ParameterPath)
      → IsMade q
      → has (or_empty (JsMap.get k (get_or s.fragment_index i []))) q
        ≡ (is_stored s q && fragment_is q i k)
  pub by_text :
      (k : JsString) (p : ParameterPath)
      → JsMap.get k s.string_index ≡ some p
      → (p.string ≡ k) × IsMade p

-- Segment `i` of `q` is one that the search asks for: the same fragment, any under a wildcard if
-- subsets are asked for, and a wildcard over a fragment if supersets are.
unfoldable pub matches_at : ParameterPath → Bool → Bool → ParameterPath → ℕ → Bool
matches_at path superset subset q i =
    (wildcard_at path i && subset)
    || fragment_is q i (fragment_of (get_or path.segments i (aliased no_pairs)))
    || (not (wildcard_at path i) && superset && fragment_is q i (b'*' ∷ []))

unfoldable pub matches_below : ℕ → ParameterPath → Bool → Bool → ParameterPath → Bool
matches_below zero path superset subset q = true
matches_below (suc n) path superset subset q =
    matches_at path superset subset q n && matches_below n path superset subset q

-- The paths that a search asks for.
unfoldable pub matches : ParameterPath → Bool → Bool → ℕ → ParameterPath → Bool
unfolding matches_below
matches path superset subset limit q =
    leb (length path.segments) (length q.segments)
    && leb (length q.segments) limit
    && matches_below (length path.segments) path superset subset q

none_has : (q : ParameterPath) → has [] q ≡ false
unfolding has
none_has q = refl

get_or-drop {ℓ} :
    {A : Type ℓ} (n j : ℕ) (xs : List A) (d : A) → get_or (drop n xs) j d ≡ get_or xs (n + j) d
get_or-drop zero j xs d = let z : 0 + j ≡ j = omega arith in rw z
get_or-drop (suc n) j [] d = refl
get_or-drop (suc n) j (x ∷ xs) d =
    let z : suc n + j ≡ suc (n + j) = omega arith in rw z (get_or-drop n j xs d)

has_in_some-take :
    (index : List PathList) (k offset : ℕ) (q : ParameterPath) (stored : Bool) (len : ℕ)
    → ((j : ℕ) → has (get_or index j []) q ≡ (stored && len == offset + j))
    → (stored ≡ true → len < offset + length index)
    → has_in_some (take k index) q ≡ (stored && leb offset len && ltb len (offset + k))
unfolding has_in_some
has_in_some-take index zero offset q stored len h f = ground arith
has_in_some-take [] (suc k) offset q false len h f = refl
has_in_some-take [] (suc k) offset q true len h f = let l = f refl in ground arith
has_in_some-take (x ∷ index) (suc k) offset q stored len h f =
    let ih =
      has_in_some-take index k (offset + 1) q stored len
        (λ j. h (suc j) ∙ (let z : offset + suc j ≡ offset + 1 + j = omega arith in rw z))
        (λ e. let l = f e in omega arith) in
    ground (arith, ih, h 0)

has_in_some-slice :
    (index : List PathList) (from to : ℕ) (q : ParameterPath) (stored : Bool) (len : ℕ)
    → ((j : ℕ) → has (get_or index j []) q ≡ (stored && len == j))
    → (stored ≡ true → len < length index)
    → has_in_some (slice from to index) q ≡ (stored && leb from len && ltb len to)
has_in_some-slice index from to q stored len h f =
    has_in_some-take (drop from index) (to - from) from q stored len
      (λ j. rw (get_or-drop from j index []) (h (from + j)))
      (λ e. let l = f e in omega (arith, length-drop from index))
    ∙ ground arith

has_in_some_empty :
    (index : List PathList) (q : ParameterPath)
    → (length index == 0) ≡ true
    → has_in_some index q ≡ false
unfolding has_in_some
has_in_some_empty [] q h = refl
has_in_some_empty (l ∷ r) q h = absurd (ground arith)

-- One level, for whatever its sets and its tests are.
accepts_level :
    (q : ParameterPath) (stored wild superset subset f g : Bool) (res a b : Option PathList)
    → has (or_empty a) q ≡ (stored && f)
    → has (or_empty b) q ≡ (stored && g)
    → (stored
        && accepts
            (if wild && subset
              then so_far res
              else narrow_level res a (if not wild && superset then b else none))
            q)
      ≡ (stored && accepts_all res q && ((wild && subset) || f || (not wild && superset && g)))
accepts_level q stored true superset true f g none a b h k = ground arith
accepts_level q stored true superset true f g (some l) a b h k = ground arith
accepts_level q stored true superset false f g res a b h k =
    ground (arith, accepts-narrow_level res a none q, none_has q)
accepts_level q stored false true subset f g res a b h k =
    ground (arith, accepts-narrow_level res a b q)
accepts_level q stored false false subset f g res a b h k =
    ground (arith, accepts-narrow_level res a none q, none_has q)

module _ (s : PathSet) (x : IsIndexed s) (path : ParameterPath) (superset subset : Bool)
    (q : ParameterPath) (m : IsMade q) where
  accepts-find_level :
      (i : ℕ) (res : Option PathList)
      → (is_stored s q && accepts (find_level s path superset subset i res) q)
        ≡ (is_stored s q && accepts_all res q && matches_at path superset subset q i)
  unfolding find_level matches_at
  accepts-find_level i res =
      accepts_level q (is_stored s q) (wildcard_at path i) superset subset _ _ res _ _
        (x.by_fragment i (fragment_of (get_or path.segments i (aliased no_pairs))) q m)
        (x.by_fragment i (b'*' ∷ []) q m)

  accepts-find_loop_step :
      (n : ℕ) (res : Option PathList)
      → ((r : Option PathList)
          → (is_stored s q && accepts (find_loop s path superset subset n r) q)
            ≡ (is_stored s q && accepts_all r q && matches_below n path superset subset q))
      → (f : Found) → find_level s path superset subset n res ≡ f
      → (is_stored s q && accepts (find_loop s path superset subset (suc n) res) q) ≡ (
          is_stored s q
          && accepts_all res q
          && (matches_at path superset subset q n && matches_below n path superset subset q))
  unfolding find_loop
  accepts-find_loop_step n res ih nothing e =
      let none_left : find_loop s path superset subset (suc n) res ≡ nothing = rw (find_loop, e) in
      let level = accepts-find_level n res in rw none_left (ground (arith, rw e at level))
  accepts-find_loop_step n res ih (so_far none) e =
      let left : find_loop s path superset subset (suc n) res
          ≡ find_loop s path superset subset n none =
        rw (find_loop, e) in
      let level = accepts-find_level n res in rw left (ground (arith, rw e at level, ih none))
  accepts-find_loop_step n res ih (so_far (some l)) e =
      let left : find_loop s path superset subset (suc n) res
          ≡ find_loop s path superset subset n (some l) =
        rw (find_loop, e) in
      let level = accepts-find_level n res in rw left (ground (arith, rw e at level, ih (some l)))

  accepts-find_loop :
      (n : ℕ) (res : Option PathList)
      → (is_stored s q && accepts (find_loop s path superset subset n res) q)
        ≡ (is_stored s q && accepts_all res q && matches_below n path superset subset q)
  unfolding matches_below
  accepts-find_loop zero none = unfold find_loop in ground arith
  accepts-find_loop zero (some l) = unfold find_loop in ground arith
  accepts-find_loop (suc n) res =
      accepts-find_loop_step n res (accepts-find_loop n) (find_level s path superset subset n res)
        refl

  -- Within the limits the search finds the stored paths that it asks for, and no other.
  pub has-find_indexed :
      (limit : ℕ)
      → has (find_indexed path superset subset limit s) q
        ≡ (is_stored s q && matches path superset subset limit q)
  unfolding find_indexed matches
  has-find_indexed limit =
      let lengths =
        has_in_some-slice s.length_index (length path.segments) (limit + 1) q (is_stored s q)
          (length q.segments) (λ n. x.by_length n q m) (x.fits q m) in
      let loop = accepts-find_loop (length path.segments) none in
      elim (Bool-cases (length (slice (length path.segments) (limit + 1) s.length_index) == 0)) [
        | inl empty ↦
            let none_there =
              has_in_some_empty (slice (length path.segments) (limit + 1) s.length_index) q empty in
            rw (find_indexed, empty) (ground (arith, lengths, none_there, none_has q))
        | inr more ↦
            rw (find_indexed, more)
              (has-found_paths (slice (length path.segments) (limit + 1) s.length_index)
                  (find_loop s path superset subset (length path.segments) none) q
                ∙ ground (arith, lengths, loop))
      ]
