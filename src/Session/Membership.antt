-- ===== src/Session/Membership.antt =====
-- lib/session.ts: `addProvisions` adds a provision to a channel and keeps what every other channel
-- wants.
use native.Mathlib.Nat.{pow-le-pow_right}
use genieacs.Common.Eq.{JsString, js_string_eq, ◌===◌, ===_iff}
use genieacs.Common.Bits.{bit}
use genieacs.Common.BitFields.{below_power, bit_beyond}
use genieacs.Common.{
  ℕ, suc, ◌+◌, ◌^◌, ◌≤◌, ◌<◌, ◌≡◌, refl, sym, subst, Bool, true, false, ◌&&◌, ◌||◌, inl, inr, List,
  [], ◌∷◌, ◌++◌, length, length-append, ◌==◌, arith,
}
use genieacs.Expression.{Primitives, Items}
use genieacs.Session.{
  Channels, channel_bits, take_digit_out, provision_text, remove_duplicates, take_out, holders,
}
use genieacs.Session.Digits.{bit-take_digit_out}
use genieacs.Session.Channels.{is_member, channel_bits-take_out, is_member-holders}
use genieacs.Session.Duplicates.{
  IsFree, IsDistinct, without_middle, locate, IsFree-append, remove_duplicates_free,
  remove_duplicates_found,
}

below_word : (n v : ℕ) → n ≤ 31 → v < 2 ^ n → v < 2 ^ 31
below_word n v h k =
    let larger = pow-le-pow_right {n = 2} (omega arith) {i = n} {j = 31} h in omega arith

module _ {N : Type 0} ⦃p : Primitives N⦄ where
  -- whether the bits `v`, from bit `j` on, hold a provision with the text `q`
  abbrev pub wants : ℕ → List (Items N) → ℕ → JsString → Bool
  wants j [] v q = false
  wants j (r ∷ l) v q = (provision_text r === q && bit j v == 1) || wants (suc j) l v q

  pub wants-append :
      (j : ℕ) (l m : List (Items N)) (v : ℕ) (q : JsString)
      → wants j (l ++ m) v q ≡ (wants j l v q || wants (j + length l) m v q)
  wants-append j [] m v q = let place : j + 0 ≡ j = omega arith in rw (place) refl
  wants-append j (r ∷ l) m v q =
      let place : j + suc (length l) ≡ suc j + length l = omega arith in
      rw (place) (ground (arith, wants-append (suc j) l m v q))

  pub wants_same :
      (j k : ℕ) (l : List (Items N)) (v w : ℕ) (q : JsString)
      → ((i : ℕ) → i < length l → bit (j + i) v ≡ bit (k + i) w)
      → wants j l v q ≡ wants k l w q
  wants_same j k [] v w q h = refl
  wants_same j k (r ∷ l) v w q h =
      let first = h 0 (omega arith) in
      let others = wants_same (suc j) (suc k) l v w q (λ i below.
        let place : suc j + i ≡ j + suc i = omega arith in
        let place' : suc k + i ≡ k + suc i = omega arith in
        rw (place, place') (h (suc i) (omega arith))) in
      let here : j + 0 ≡ j = omega arith in
      let here' : k + 0 ≡ k = omega arith in
      let same : bit j v ≡ bit k w =
        subst (λ n. bit n v ≡ bit k w) here (subst (λ n. bit (j + 0) v ≡ bit n w) here' first) in
      rw (same, others) refl

  -- no text twice, and no bit past the provisions
  pub record IsSound (provisions : List (Items N)) (channels : Channels) : Type 0 where
    pub distinct : IsDistinct provisions
    pub fits : (c : JsString) → channel_bits c channels < 2 ^ length provisions

  -- What the search for duplicates of `s` leaves: a channel that is named wants `s`.
  pub record IsRemoved (channel s : JsString) (provisions : List (Items N)) (channels : Channels)
      (left : List (Items N)) (spliced : Channels) (names : List JsString) : Type 0 where
    pub free : IsFree s left
    pub sound : IsSound left spliced
    pub shorter : length left ≤ length provisions
    pub keeps :
        (c q : JsString)
        → (wants 0 left (channel_bits c spliced) q || (is_member c names && s === q))
          ≡ (wants 0 provisions (channel_bits c channels) q || (channel === c && s === q))

  abbrev pub HasRemoved : JsString → JsString → List (Items N) → Channels → Type 0
  HasRemoved channel s provisions channels =
      let r = remove_duplicates s 0 provisions channels (channel ∷ []) in
      IsRemoved channel s provisions channels r.0 r.1 r.2

  IsRemoved-free :
      (channel s : JsString) (provisions : List (Items N)) (channels : Channels)
      → IsFree s provisions
      → IsSound provisions channels
      → IsRemoved channel s provisions channels provisions channels (channel ∷ [])
  IsRemoved-free channel s provisions channels f i = record {
    free = f;
    sound = i;
    shorter = omega arith;
    keeps = λ c q. ground arith;
  }

  -- what a channel wants once the provision at `length before` is taken out
  spliced_wants :
      (before after : List (Items N)) (v : ℕ) (q : JsString)
      → length before < 31
      → v < 2 ^ 31
      → wants 0 (before ++ after) (take_digit_out (length before) v) q
        ≡ (wants 0 before v q || wants (suc (length before)) after v q)
  spliced_wants before after v q h k =
      let j = length before in
      let w = take_digit_out j v in
      let low = wants_same 0 0 before w v q (λ i below.
        let place : 0 + i ≡ i = omega arith in
        rw (place, bit-take_digit_out i j v h k) (ground arith)) in
      let high = wants_same j (suc j) after w v q (λ i below.
        let place : suc j + i ≡ suc (j + i) = omega arith in
        rw (place, bit-take_digit_out (j + i) j v h k) (ground arith)) in
      let start : 0 + j ≡ j = omega arith in
      rw (wants-append 0 before after w q, start, low, high) refl

  spliced_fits :
      (before : List (Items N)) (d : Items N) (after : List (Items N)) (v : ℕ)
      → length (before ++ d ∷ after) ≤ 31
      → v < 2 ^ length (before ++ d ∷ after)
      → take_digit_out (length before) v < 2 ^ length (before ++ after)
  spliced_fits before d after v h k =
      let j = length before in
      let n = length (before ++ d ∷ after) in
      let count = length-append before (d ∷ after) in
      let count' = length-append before after in
      below_power (length (before ++ after)) (take_digit_out j v) (λ i beyond.
        rw (bit-take_digit_out i j v (omega (arith, count)) (below_word n v h k))
          (ground (arith, count, count', bit_beyond n (suc i) v k (omega (arith, count, count')))))

  IsRemoved-found :
      (channel s : JsString) (before : List (Items N)) (d : Items N) (after : List (Items N))
      (channels : Channels)
      → IsFree s before
      → (provision_text d === s) ≡ true
      → IsFree s after
      → IsSound (before ++ d ∷ after) channels
      → length (before ++ d ∷ after) ≤ 31
      → IsRemoved channel s
          (before ++ d ∷ after)
          channels
          (before ++ after)
          (take_out (length before) channels)
          (channel ∷ holders (length before) channels channels)
  IsRemoved-found channel s before d after channels f e g i h =
      let j = length before in
      let count = length-append before (d ∷ after) in
      let count' = length-append before after in
      record {
        free = IsFree-append s before after f g;
        sound = record {
          distinct = without_middle before d after i.distinct;
          fits = λ c.
              rw (channel_bits-take_out j c channels (omega (arith, count)))
                (spliced_fits before d after (channel_bits c channels) h (i.fits c));
        };
        shorter = omega (arith, count, count');
        keeps = λ c q.
            let v = channel_bits c channels in
            let same : provision_text d ≡ s = (===_iff (provision_text d) s).0 e in
            let low : j < 31 = omega (arith, count) in
            let start : 0 + j ≡ j = omega arith in
            rw
              (
                channel_bits-take_out j c channels low,
                spliced_wants before after v q low
                    (below_word (length (before ++ d ∷ after)) v h (i.fits c)),
                wants-append 0 before (d ∷ after) v q,
                start,
                is_member-holders j c channels low,
                same,
              )
              (ground arith);
      }

  removed_at :
      (channel s : JsString) (before : List (Items N)) (d : Items N) (after : List (Items N))
      (channels : Channels)
      → IsFree s before
      → (provision_text d === s) ≡ true
      → IsFree s after
      → IsSound (before ++ d ∷ after) channels
      → length (before ++ d ∷ after) ≤ 31
      → HasRemoved channel s (before ++ d ∷ after) channels
  removed_at channel s before d after channels f e g i h =
      let start : 0 + length before ≡ length before = omega arith in
      rw
        (
          HasRemoved,
          remove_duplicates_found s 0 before d after channels (channel ∷ []) f e g,
          start,
        )
        (IsRemoved-found channel s before d after channels f e g i h)

  pub removed :
      (channel s : JsString) (provisions : List (Items N)) (channels : Channels)
      → IsSound provisions channels
      → length provisions ≤ 31
      → HasRemoved channel s provisions channels
  removed channel s provisions channels i h = elim (locate s provisions i.distinct) [
    | inl free ↦
        rw (HasRemoved, remove_duplicates_free s 0 provisions channels (channel ∷ []) free)
          (IsRemoved-free channel s provisions channels free i)
    | inr found ↦
        let shape = found.shape in
        subst (λ l. HasRemoved channel s l channels) (sym shape)
          (removed_at channel s found.before found.duplicate found.after channels found.free_before
            found.at found.free_after (subst (λ l. IsSound l channels) shape i)
            (subst (λ l. length l ≤ 31) shape h))
  ]
