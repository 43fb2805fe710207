-- ===== src/ParameterPath/Slicing.antt =====
-- lib/common/path.ts: the text that `slice` cuts out of a path's text is the text of the slice.
use genieacs.Common.Text.{slice, join}
use genieacs.Common.Eq.{JsString}
use genieacs.Common.{
  ℕ, zero, suc, min, ◌+◌, ◌-◌, ◌≤◌, ◌<◌, ◌≡◌, refl, ◌∙◌, ap, true, false, ◌&&◌, List, [], ◌∷◌, ◌++◌,
  map, length, length-append, length-drop, length-map, map-take, map-drop, take_all,
  take_zero-append, take-length_le, drop-length_le, get_or, take, drop, ltb, leb, arith,
  if◌then◌else◌, Bool-cases, inl, inr,
}
use genieacs.ParameterPath.{Segment, segment_string, make, index_from, slice_string}

-- where the text of segment `j` ends in the joined text
end_of : ℕ → List JsString → ℕ
end_of j [] = 0
end_of zero (s ∷ r) = length s
end_of (suc j) (s ∷ r) = length s + 1 + end_of j r

index_from-end_of :
    (offset i j : ℕ) (arr : List JsString)
    → j < length arr
    → get_or (index_from offset i arr) j 0 ≡ offset + i + end_of j arr
unfolding index_from end_of
index_from-end_of offset i j [] h = absurd (omega arith)
index_from-end_of offset i zero (s ∷ r) h = omega arith
index_from-end_of offset i (suc j) (s ∷ r) h =
    omega (arith, index_from-end_of (offset + length s) (i + 1) j r (omega arith))

length-index_from :
    (offset i : ℕ) (arr : List JsString) → length (index_from offset i arr) ≡ length arr
unfolding index_from
length-index_from offset i [] = refl
length-index_from offset i (s ∷ r) = ap suc (length-index_from (offset + length s) (i + 1) r)

drop-length-append {ℓ} :
    {A : Type ℓ} (xs ys : List A) (n : ℕ) → drop (length xs + n) (xs ++ ys) ≡ drop n ys
drop-length-append [] ys n = let z : 0 + n ≡ n = omega arith in rw z
drop-length-append (x ∷ xs) ys n =
    let e : suc (length xs) + n ≡ suc (length xs + n) = omega arith in
    rw e (drop-length-append xs ys n)

take-length-append {ℓ} :
    {A : Type ℓ} (xs ys : List A) (n : ℕ) → take (length xs + n) (xs ++ ys) ≡ xs ++ take n ys
take-length-append [] ys n = let z : 0 + n ≡ n = omega arith in rw z
take-length-append (x ∷ xs) ys n =
    let e : suc (length xs) + n ≡ suc (length xs + n) = omega arith in
    rw e (ap (λ r. x ∷ r) (take-length-append xs ys n))

abbrev dot : JsString
dot = b'.' ∷ []

-- Behind the separator that ends a segment stands the text of the segments after it.
drop-join :
    (j : ℕ) (arr : List JsString)
    → suc j < length arr
    → drop (end_of j arr + 1) (join dot arr) ≡ join dot (drop (suc j) arr)
unfolding end_of join
drop-join j [] h = absurd (omega arith)
drop-join j (s ∷ []) h = absurd (omega arith)
drop-join zero (s ∷ t ∷ r) h = drop-length-append s (dot ++ join dot (t ∷ r)) 1
drop-join (suc j) (s ∷ t ∷ r) h =
    let e : length s + 1 + end_of j (t ∷ r) + 1 ≡ length s + suc (end_of j (t ∷ r) + 1) =
      omega arith in
    rw e (drop-length-append s (dot ++ join dot (t ∷ r)) (suc (end_of j (t ∷ r) + 1)))
    ∙ drop-join j (t ∷ r) (omega arith)

-- Up to the end of a segment stands the text of the segments up to it.
take-join :
    (j : ℕ) (arr : List JsString)
    → j < length arr
    → take (end_of j arr) (join dot arr) ≡ join dot (take (suc j) arr)
unfolding end_of join
take-join j [] h = absurd (omega arith)
take-join zero (s ∷ []) h = take_all s
take-join (suc j) (s ∷ []) h = absurd (omega arith)
take-join zero (s ∷ t ∷ r) h = take_zero-append s (dot ++ join dot (t ∷ r))
take-join (suc j) (s ∷ t ∷ r) h =
    let e : length s + 1 + end_of j (t ∷ r) ≡ length s + suc (end_of j (t ∷ r)) = omega arith in
    rw e (take-length-append s (dot ++ join dot (t ∷ r)) (suc (end_of j (t ∷ r))))
    ∙ ap (λ x. s ++ (b'.' ∷ x)) (take-join j (t ∷ r) (omega arith))

length-join :
    (s : JsString) (r : List JsString) → length (join dot (s ∷ r)) ≡ end_of (length r) (s ∷ r)
unfolding end_of join
length-join s [] = refl
length-join s (t ∷ r) = omega (arith, length-append s (dot ++ join dot (t ∷ r)), length-join t r)

end_of-drop :
    (s j : ℕ) (arr : List JsString)
    → suc s + j < length arr
    → end_of (suc s + j) arr ≡ end_of s arr + 1 + end_of j (drop (suc s) arr)
unfolding end_of
end_of-drop s j [] h = absurd (omega arith)
end_of-drop zero j (x ∷ r) h = let e : suc zero + j ≡ suc j = omega arith in rw e
end_of-drop (suc s) j (x ∷ r) h =
    let e : suc (suc s) + j ≡ suc (suc s + j) = omega arith in
    rw e (omega (arith, end_of-drop s j r (omega arith)))

slice-join-suc :
    (s j : ℕ) (arr : List JsString)
    → suc s + j < length arr
    → slice (end_of s arr + 1) (end_of (suc s + j) arr) (join dot arr)
      ≡ join dot (take (suc j) (drop (suc s) arr))
slice-join-suc s j arr h =
    let w : end_of (suc s + j) arr - (end_of s arr + 1) ≡ end_of j (drop (suc s) arr) =
      omega (arith, end_of-drop s j arr (omega arith)) in
    rw (w, drop-join s arr (omega arith))
      (take-join j (drop (suc s) arr) (omega (arith, length-drop (suc s) arr)))

slice-join :
    (start end : ℕ) (arr : List JsString)
    → start < end
    → end ≤ length arr
    → slice
        (if ltb 0 start then end_of (start - 1) arr + 1 else 0)
        (end_of (end - 1) arr)
        (join dot arr)
      ≡ join dot (slice start end arr)
slice-join zero end arr p q =
    let e : end - 0 ≡ suc (end - 1) = omega arith in
    let z : end_of (end - 1) arr - 0 ≡ end_of (end - 1) arr = omega arith in
    rw (z, e) (take-join (end - 1) arr (omega arith))
slice-join (suc s) end arr p q =
    let (j, e) =
      (let w : (j : ℕ) × (end ≡ suc (suc s + j)) = (end - suc (suc s), omega arith) in w) in
    let t : ltb 0 (suc s) ≡ true = ground arith in
    let o : suc s - 1 ≡ s = omega arith in
    let i : suc (suc s + j) - 1 ≡ suc s + j = omega arith in
    let d : suc (suc s + j) - suc s ≡ suc j = omega arith in
    rw (t, o, e, i, d) (slice-join-suc s j arr (omega arith))

abbrev from_position : ℕ → List JsString → ℕ
from_position start arr =
    if ltb 0 start && leb start (length (index_from 0 0 arr))
    then get_or (index_from 0 0 arr) (start - 1) 0 + 1
    else 0

abbrev to_position : ℕ → List JsString → ℕ
to_position end arr =
    if leb end (length arr) then get_or (index_from 0 0 arr) (end - 1) 0 else length (join dot arr)

from_position_lem :
    (start : ℕ) (arr : List JsString)
    → start ≤ length arr
    → from_position start arr ≡ (if ltb 0 start then end_of (start - 1) arr + 1 else 0)
from_position_lem start arr h =
    ground (arith, length-index_from 0 0 arr, index_from-end_of 0 0 (start - 1) arr)

to_position_lem :
    (end : ℕ) (s : JsString) (r : List JsString)
    → 0 < end
    → to_position end (s ∷ r) ≡ end_of (min end (suc (length r)) - 1) (s ∷ r)
to_position_lem end s r h = elim (Bool-cases (leb end (suc (length r)))) [
  | inl inside ↦
      let m : min end (suc (length r)) ≡ end = ground arith in
      rw (inside, m)
        (index_from-end_of 0 0 (end - 1) (s ∷ r) (ground arith)
          ∙ (let z : 0 + 0 + end_of (end - 1) (s ∷ r) ≡ end_of (end - 1) (s ∷ r) = omega arith in
              z))
  | inr past ↦
      let m : min end (suc (length r)) - 1 ≡ length r = ground arith in
      rw (past, m) (length-join s r)
]

take-min {ℓ} :
    {A : Type ℓ} (xs : List A) (start end len : ℕ)
    → length xs ≡ len - start
    → take (min end len - start) xs ≡ take (end - start) xs
take-min xs start end len h = elim (Bool-cases (leb end len)) [
  | inl inside ↦ let m : min end len ≡ end = ground arith in rw m
  | inr past ↦
      let m : min end len ≡ len = ground arith in
      rw (
        m,
        take-length_le (len - start) xs (omega arith),
        take-length_le (end - start) xs (ground arith),
      )
]

text-slice :
    (start end : ℕ) (arr : List JsString)
    → start < end
    → start ≤ length arr
    → slice (from_position start arr) (to_position end arr) (join dot arr)
      ≡ join dot (slice start end arr)
text-slice start end [] p h =
    let z : start ≡ 0 = omega arith in
    let e : leb end 0 ≡ false = ground arith in
    rw (z, e, take-length_le {A = JsString} (end - 0) [] (omega arith)) (unfold join in refl)
text-slice start end (s ∷ r) p h = elim (Bool-cases (ltb start (suc (length r)))) [
  | inl inside ↦
      let stop : ℕ = min end (suc (length r)) in
      rw (from_position_lem start (s ∷ r) h, to_position_lem end s r (omega arith))
        (slice-join start stop (s ∷ r) (ground arith) (omega arith)
          ∙ ap (join dot) (
              take-min (drop start (s ∷ r)) start end (suc (length r)) (length-drop start (s ∷ r))))
  | inr outside ↦
      let at_end : start ≡ suc (length r) = ground arith in
      let t : ltb 0 (suc (length r)) ≡ true = ground arith in
      let o : suc (length r) - 1 ≡ length r = omega arith in
      let past : drop (end_of (length r) (s ∷ r) + 1) (join dot (s ∷ r)) ≡ [] =
        drop-length_le (end_of (length r) (s ∷ r) + 1) (join dot (s ∷ r))
          (omega (arith, length-join s r)) in
      rw
        (
          from_position_lem start (s ∷ r) h,
          drop-length_le start (s ∷ r) (omega arith),
          at_end,
          t,
          o,
          past,
          take-length_le {A = JsString} (end - suc (length r)) [] (omega arith),
        )
        (take-length_le _ [] (omega arith) ∙ (unfold join in refl))
]

-- For a start that is no more than the number of segments, the text that slice cuts out of the
-- stored text by the stored positions is the text of the path of the sliced segments.
pub slice_string-make :
    (start end : ℕ) (segments : List Segment)
    → start ≤ length segments
    → slice_string start end (make segments) ≡ (make (slice start end segments)).string
unfolding slice_string make
slice_string-make start end segments h = elim (Bool-cases (leb end start)) [
  | inl empty ↦ let z : end - start ≡ 0 = ground arith in rw (empty, z) (unfold join in refl)
  | inr some_left ↦
      let same = length-map segment_string segments in
      let cut =
        text-slice start end (map segment_string segments) (ground arith) (omega (arith, same)) in
      rw
        (
          some_left,
          map-take segment_string (end - start) (drop start segments),
          map-drop segment_string start segments,
        )
        (rw same at cut)
]

sub_zero : (n : ℕ) → n - 0 ≡ n
sub_zero n = omega arith

-- For a start past the last segment and a later end, the text that slice looks up is the text
-- of the whole path, although the slice has no segments.
pub slice_string_beyond :
    (start end : ℕ) (segments : List Segment)
    → length segments < start
    → start < end
    → (slice_string start end (make segments) ≡ (make segments).string)
      × (slice start end segments ≡ [])
unfolding slice_string make
slice_string_beyond start end segments h k = (
  ground (
    arith,
    length-index_from 0 0 (map segment_string segments),
    length-map segment_string segments,
    take_all (join dot (map segment_string segments)),
    sub_zero (length (join dot (map segment_string segments))),
  ),
  rw (drop-length_le start segments (omega arith)) (take-length_le (end - start) [] (omega arith)),
)
