-- ===== src/Session/Channels.antt =====
-- lib/session.ts: the bits of the channels under the loops of `addProvisions`.
use genieacs.Common.Eq.{JsString, js_string_eq, ◌===◌, ===_iff}
use genieacs.Common.JsMap.{get, set, get-set}
use genieacs.Common.Words.{shl, or_bits, and_bits}
use genieacs.Common.Bits.{bit, bit_zero}
use genieacs.Common.BitFields.{bit_le, all_zero, bit-mark}
use genieacs.Common.{
  ℕ, suc, ◌<◌, ◌≡◌, refl, sym, ◌∙◌, Bool, false, not, ◌&&◌, ◌||◌, Bool-cases, inl, inr, List, [],
  ◌∷◌, ◌++◌, ◌==◌, if◌then◌else◌, arith,
}
use genieacs.Session.{Channels, channel_bits, take_digit_out, take_out, holders, mark_all}
use genieacs.Common.BitFields.{test_digit}
use genieacs.Session.Digits.{bit-take_digit_out}

abbrev is_key : JsString → Channels → Bool
is_key c [] = false
is_key c ((d, v) ∷ l) = (d === c) || is_key c l

abbrev pub is_member : JsString → List JsString → Bool
is_member c [] = false
is_member c (d ∷ l) = (d === c) || is_member c l

pub is_member-append :
    (c : JsString) (l m : List JsString) → is_member c (l ++ m) ≡ (is_member c l || is_member c m)
is_member-append c [] m = refl
is_member-append c (d ∷ l) m = ground (arith, is_member-append c l m)

take_digit_out_zero : (j : ℕ) → j < 31 → take_digit_out j 0 ≡ 0
take_digit_out_zero j h =
    let v = take_digit_out j 0 in
    all_zero (suc v) v (omega arith) (λ i.
      rw (bit-take_digit_out i j 0 h (omega arith), bit_zero i, bit_zero (suc i)) (ground arith))

pub channel_bits-take_out :
    (j : ℕ) (c : JsString) (channels : Channels)
    → j < 31
    → channel_bits c (take_out j channels) ≡ take_digit_out j (channel_bits c channels)
unfolding get
channel_bits-take_out j c [] h = sym (take_digit_out_zero j h)
channel_bits-take_out j c ((d, v) ∷ l) h = elim (Bool-cases (d === c)) [
  | inl here ↦ rw (channel_bits, get, here) refl
  | inr there ↦ rw (channel_bits, get, there) (channel_bits-take_out j c l h)
]

-- whether the channel has the bit `j`
abbrev pub has_bit : ℕ → JsString → Channels → Bool
has_bit j c channels = bit j (channel_bits c channels) == 1

held :
    (j : ℕ) (c : JsString) (channels : Channels)
    → j < 31
    → (and_bits (channel_bits c channels) (shl 1 j) == 0) ≡ not (has_bit j c channels)
held j c channels h =
    test_digit j (channel_bits c channels) (omega arith)
    ∙ ground (arith, bit_le j (channel_bits c channels))

holders_member :
    (j : ℕ) (c : JsString) (channels l : Channels)
    → j < 31
    → is_member c (holders j channels l) ≡ (is_key c l && has_bit j c channels)
unfolding holders
holders_member j c channels [] h = refl
holders_member j c channels ((d, v) ∷ l) h =
    let rest = holders_member j c channels l h in
    let test = held j d channels h in
    elim (Bool-cases (d === c)) [
      | inl same ↦
          let at_c : d ≡ c = (===_iff d c).0 same in
          elim (Bool-cases (has_bit j d channels)) [
            | inl has ↦ rw (test, has, same, sym at_c, has) refl
            | inr has_not ↦ rw (test, has_not, rest, same, sym at_c, has_not) (ground arith)
          ]
      | inr other ↦ elim (Bool-cases (has_bit j d channels)) [
        | inl has ↦ rw (test, has, other) rest
        | inr has_not ↦ rw (test, has_not, other) rest
      ]
    ]

no_key_bits : (c : JsString) (l : Channels) → is_key c l ≡ false → channel_bits c l ≡ 0
unfolding get
no_key_bits c [] h = refl
no_key_bits c ((d, v) ∷ l) h = elim (Bool-cases (d === c)) [
  | inl here ↦ absurd (ground (arith, here, h))
  | inr there ↦ rw (channel_bits, get, there) (no_key_bits c l (ground (arith, there, h)))
]

pub is_member-holders :
    (j : ℕ) (c : JsString) (channels : Channels)
    → j < 31
    → is_member c (holders j channels channels) ≡ has_bit j c channels
is_member-holders j c channels h =
    holders_member j c channels channels h ∙ elim (Bool-cases (is_key c channels)) [
      | inl key ↦ rw (key) refl
      | inr no_key ↦ rw (no_key, no_key_bits c channels no_key, bit_zero j) refl
    ]

pub channel_bits-set :
    (c d : JsString) (v : ℕ) (channels : Channels)
    → channel_bits c (set d v channels) ≡ (if d === c then v else channel_bits c channels)
channel_bits-set c d v channels =
    rw (channel_bits, get-set d c v channels)
      (elim (Bool-cases (d === c)) [ inl same ↦ rw (same) refl | inr other ↦ rw (other) refl ])

pub bits-mark_all :
    (names : List JsString) (i n : ℕ) (c : JsString) (channels : Channels)
    → n < 32
    → bit i (channel_bits c (mark_all names n channels))
      ≡ (if is_member c names && n == i then 1 else bit i (channel_bits c channels))
unfolding mark_all
bits-mark_all [] i n c channels h = refl
bits-mark_all (d ∷ l) i n c channels h =
    let marked = or_bits (channel_bits d channels) (shl 1 n) in
    let rest = bits-mark_all l i n c (set d marked channels) h in
    let here = bit-mark i n (channel_bits d channels) h in
    elim (Bool-cases (d === c)) [
      | inl same ↦
          let at_c : d ≡ c = (===_iff d c).0 same in
          rest ∙ rw (channel_bits-set c d marked channels, same, here, sym at_c) (ground arith)
      | inr other ↦ rest ∙ rw (channel_bits-set c d marked channels, other) refl
    ]
