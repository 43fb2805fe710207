-- ===== src/ParameterPath/Sharing.antt =====
-- lib/common/path.ts: the caches that sequences of `parse`, `slice`, `concat` and the timer reach.
use genieacs.Common.JsMap
use genieacs.Common.JsMap.{JsMap}
use genieacs.Common.Eq.{JsString, js_string_eq}
use genieacs.Common.Integer.{ℤ}
use genieacs.Common.Text.{slice, join}
use genieacs.Common.{
  ◌≤◌, ◌≡◌, refl, sym, subst, ◌∙◌, ap, true, false, some, List, [], ◌∷◌, ◌++◌, map, length, ◌==◌,
  arith, Bool-cases, inl, inr, All, All-append,
}
use genieacs.ParameterPath.{
  ParameterPath, Segment, Caches, make, from_end, slice_path, concat, parse, parse_all, expire,
  segment_string,
}
use genieacs.ParameterPath.RoundTrip.{IsPlain, parse_all-make}
use mathlib.Core.List.{append_assoc, append-nil}
use genieacs.ParameterPath.Coherence.{
  IsCoherent, HasBuilt, Gives, cached_lem, Parses, parse_lem, slice_path_lem,
}

join-append :
    (a b : JsString) (r q : List JsString)
    → join (b'.' ∷ []) ((a ∷ r) ++ (b ∷ q))
      ≡ join (b'.' ∷ []) (a ∷ r) ++ (b'.' ∷ join (b'.' ∷ []) (b ∷ q))
unfolding join
join-append a b [] q = refl
join-append a b (c ∷ r) q =
    ap (λ x. a ++ (b'.' ∷ x)) (join-append c b r q)
    ∙ sym (append_assoc a (b'.' ∷ join (b'.' ∷ []) (c ∷ r)) (b'.' ∷ join (b'.' ∷ []) (b ∷ q)))

map_string-append :
    (s r : List Segment)
    → map segment_string (s ++ r) ≡ map segment_string s ++ map segment_string r
map_string-append [] r = refl
map_string-append (x ∷ s) r = ap (λ l. segment_string x ∷ l) (map_string-append s r)

string-append :
    (s r : List Segment)
    → (length (make s).string == 0) ≡ false
    → (length (make r).string == 0) ≡ false
    → (make s).string ++ (b'.' ∷ (make r).string) ≡ (make (s ++ r)).string
unfolding make
string-append [] r h k = absurd (unfold join in cc)
string-append (x ∷ s) [] h k = absurd (unfold join in cc)
string-append (x ∷ s) (y ∷ r) h k = sym (
    ap (join (b'.' ∷ [])) (map_string-append (x ∷ s) (y ∷ r))
    ∙ join-append (segment_string x) (segment_string y) (map segment_string s)
        (map segment_string r))

length_zero : (s : JsString) → (length s == 0) ≡ true → s ≡ []
length_zero [] h = refl
length_zero (c ∷ s) h = absurd (ground arith)

-- a plain path without text has no segments
no_text : (s : List Segment) → All IsPlain s → (length (make s).string == 0) ≡ true → s ≡ []
no_text s a h =
    let empty : (make s).string ≡ [] = length_zero (make s).string h in
    let none_left : (make []).string ≡ [] = unfold make join in refl in
    let same : some s ≡ some [] =
      sym (parse_all-make s a) ∙ ap parse_all (empty ∙ sym none_left) ∙ parse_all-make [] tt in
    cc

-- The path of the segments of both.
pub concat_lem :
    (s r : List Segment) (c : Caches)
    → All IsPlain s
    → All IsPlain r
    → IsCoherent c
    → Gives (s ++ r) (concat (make s) (make r) c)
unfolding concat
concat_lem s r c a b x = elim (Bool-cases (length (make r).string == 0)) [
  | inl right_empty ↦
      rw (concat, right_empty)
        ((ap make (sym (let e : s ++ r ≡ s = rw (no_text r b right_empty) (append-nil s) in e)), x))
  | inr right ↦ elim (Bool-cases (length (make s).string == 0)) [
    | inl left_empty ↦
        rw (concat, right, left_empty)
          ((ap make (let e : r ≡ s ++ r = rw (no_text s a left_empty) in e), x))
    | inr left ↦
        rw (concat, right, left)
          (cached_lem ((make s).string ++ (b'.' ∷ (make r).string)) (s ++ r) c
            (ap parse_all (string-append s r left right)
              ∙ parse_all-make (s ++ r) (All-append IsPlain s r a b))
            x)
  ]
]

-- The caches that a process reaches, for paths without aliases and slices that do not start above the
-- length: such a slice may leave an empty path under the text of the whole one.
pub data Reachable : Caches → Type 0 where
  started : Reachable (record { recent = []; older = [] })
  parsed :
      (c : Caches) (str : JsString) (segments : List Segment) (r : ParameterPath × Caches)
      → Reachable c
      → parse_all str ≡ some segments
      → All IsPlain segments
      → parse str c ≡ some r
      → Reachable r.1
  sliced :
      (c : Caches) (start end : ℤ) (segments : List Segment)
      → Reachable c
      → All IsPlain segments
      → from_end (length segments) start ≤ length segments
      → Reachable (slice_path start end (make segments) c).1
  joined :
      (c : Caches) (s r : List Segment)
      → Reachable c
      → All IsPlain s
      → All IsPlain r
      → Reachable (concat (make s) (make r) c).1
  expired : (c : Caches) → Reachable c → Reachable (expire c)

nothing_built : HasBuilt []
unfolding JsMap.get
nothing_built k p e = cc

expire-IsCoherent : (c : Caches) → IsCoherent c → IsCoherent (expire c)
unfolding expire
expire-IsCoherent c x = record { recent = nothing_built; older = x.recent }

Reachable-IsCoherent : (c : Caches) → Reachable c → IsCoherent c
Reachable-IsCoherent c started = record { recent = nothing_built; older = nothing_built }
Reachable-IsCoherent d (parsed c str segments r h p a e) =
    let x = parse_lem str segments c p a (Reachable-IsCoherent c h) in
    let same : some r ≡ some x.result = sym e ∙ x.succeeds in
    let here : x.result ≡ r = cc in
    subst (λ (q : ParameterPath × Caches). IsCoherent q.1) here x.gives.1
Reachable-IsCoherent d (sliced c start end segments h a l) =
    (slice_path_lem start end segments c a l (Reachable-IsCoherent c h)).1
Reachable-IsCoherent d (joined c s r h a b) = (concat_lem s r c a b (Reachable-IsCoherent c h)).1
Reachable-IsCoherent d (expired c h) = expire-IsCoherent c (Reachable-IsCoherent c h)

-- With the caches after any sequence of parse, slice, concat and the timer on paths without
-- aliases, in which no slice starts at an index above the length of its path, parse of a text
-- that the parser accepts as a path without aliases gives the path of its segments, cached or
-- not, and coherent caches.
pub parse-Reachable :
    (c : Caches) (str : JsString) (segments : List Segment)
    → Reachable c
    → parse_all str ≡ some segments
    → All IsPlain segments
    → Parses segments (parse str c)
parse-Reachable c str segments h p a = parse_lem str segments c p a (Reachable-IsCoherent c h)

-- With the caches after any sequence of parse, slice, concat and the timer on paths without
-- aliases, in which no slice starts at an index above the length of its path, slice of a path
-- without aliases from a start no more than its length gives the path of the sliced segments,
-- and concat with another path without aliases the path of the segments of both.
pub shared-Reachable :
    (c : Caches) (start end : ℤ) (segments others : List Segment)
    → Reachable c
    → All IsPlain segments
    → All IsPlain others
    → from_end (length segments) start ≤ length segments
    → ((slice_path start end (make segments) c).0
        ≡ make (slice (from_end (length segments) start) (from_end (length segments) end) segments))
      × ((concat (make segments) (make others) c).0 ≡ make (segments ++ others))
shared-Reachable c start end segments others h a b l = (
  (slice_path_lem start end segments c a l (Reachable-IsCoherent c h)).0,
  (concat_lem segments others c a b (Reachable-IsCoherent c h)).0,
)
