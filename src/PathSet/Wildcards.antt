-- ===== src/PathSet/Wildcards.antt =====
-- lib/common/path.ts and lib/common/path-set.ts: the bits of a path that mark its wildcards.
use genieacs.Common.Words.{shl, or_bits}
use genieacs.Common.Bits.{bit, bit-or_bits, bit_zero, bit_power, sar-bit, shl_one}
use genieacs.Common.{
  ℕ, suc, max, ◌+◌, ◌-◌, ◌^◌, ◌≤◌, ◌<◌, ◌≡◌, ◌∙◌, Bool, false, Option, none, some, List, [], ◌∷◌,
  length, get_elem?, leb, ◌==◌, if◌then◌else◌, arith, Bool-cases, inl, inr,
}
use genieacs.ParameterPath.{Segment, is_wildcard, mark_bits, make}
use genieacs.PathSet.{wildcard_at}

abbrev pub passes : (Segment → Bool) → Option Segment → Bool
passes test none = false
passes test (some s) = test s

abbrev digit : Bool → ℕ
digit b = if b then 1 else 0

bit-mark_bits :
    (test : Segment → Bool) (i bits j : ℕ) (segments : List Segment)
    → i + length segments ≤ 32
    → bit j (mark_bits test i bits segments)
      ≡ max (bit j bits) (if leb i j then digit (passes test (get_elem? segments (j - i))) else 0)
unfolding mark_bits
bit-mark_bits test i bits j [] h = ground arith
bit-mark_bits test i bits j (s ∷ r) h =
    let ih =
      bit-mark_bits test (i + 1) (if test s then or_bits bits (shl 1 i) else bits) j r
        (omega arith) in
    let shifted = shl_one i (omega arith) in
    let marked : bit j (if test s then or_bits bits (shl 1 i) else bits)
        ≡ max (bit j bits) (if test s then (if i == j then 1 else 0) else 0) =
      elim (Bool-cases (test s)) [
        | inl passing ↦ rw (passing, shifted) (bit-or_bits j bits (2 ^ i) ∙ rw (bit_power j i))
        | inr failing ↦ rw failing (omega arith)
      ] in
    ih ∙ (elim (Bool-cases (leb i j)) [
      | inr early ↦ ground arith
      | inl late ↦ elim (Bool-cases (i == j)) [
        | inl here ↦ let z : j - i ≡ 0 = ground arith in rw (z) (ground arith)
        | inr there ↦ let z : j - i ≡ suc (j - (i + 1)) = ground arith in rw (z) (ground arith)
      ]
    ])

-- For a path of at most 32 segments and an index below 32, the bit that find reads from the
-- path says whether the segment at that index is the wildcard.
pub wildcard_at-make :
    (segments : List Segment) (i : ℕ)
    → length segments ≤ 32
    → i < 32
    → wildcard_at (make segments) i ≡ passes is_wildcard (get_elem? segments i)
unfolding make
wildcard_at-make segments i h l =
    let marks = bit-mark_bits is_wildcard 0 0 i segments (omega arith) in
    let shift = sar-bit (make segments).wildcard i l in
    let z : i - 0 ≡ i = omega arith in
    let marked : bit i (mark_bits is_wildcard 0 0 segments)
        ≡ max (bit i 0) (if leb 0 i then digit (passes is_wildcard (get_elem? segments i)) else 0) =
      rw z at marks in
    elim (Bool-cases (passes is_wildcard (get_elem? segments i))) [
      | inl wild ↦ rw wild (ground (arith, shift, rw wild at marked, bit_zero i))
      | inr plain ↦ rw plain (ground (arith, shift, rw plain at marked, bit_zero i))
    ]
