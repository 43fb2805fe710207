-- ===== src/Session/Adding.antt =====
-- lib/session.ts: `addProvisions` makes a channel want the provisions, and changes nothing else that
-- is wanted.
use genieacs.Common.Eq.{JsString, js_string_eq, ◌===◌, ===_iff}
use genieacs.Common.JsMap.{set}
use genieacs.Common.BitFields.{below_power, bit_beyond}
use genieacs.Common.{
  ℕ, ◌+◌, ◌*◌, ◌≤◌, ◌<◌, ◌≡◌, refl, ◌∙◌, ◌&&◌, ◌||◌, Bool-cases, inl, inr, List, [], ◌∷◌, ◌++◌,
  length, length-append, map, ◌==◌, arith,
}
use genieacs.Expression.{Primitives, Items}
use genieacs.Session.{
  Session, Channels, channel_bits, provision_text, remove_duplicates, mark_all, add_provision,
  add_each, next_cycle, reset_run, add_provisions,
}
use genieacs.Session.Channels.{is_member, bits-mark_all, channel_bits-set}
use genieacs.Session.Duplicates.{add_last}
use genieacs.Session.Membership.{wants, wants-append, wants_same, IsSound, IsRemoved, removed}

opened_bits :
    (c channel : JsString) (channels : Channels)
    → channel_bits c (set channel (channel_bits channel channels) channels)
      ≡ channel_bits c channels
opened_bits c channel channels =
    channel_bits-set c channel (channel_bits channel channels) channels
    ∙ elim (Bool-cases (channel === c)) [
      | inl same ↦ let at_c : channel ≡ c = (===_iff channel c).0 same in rw (same, at_c) refl
      | inr other ↦ rw (other) refl
    ]

module _ {N : Type 0} ⦃p : Primitives N⦄ where
  -- What it means for the channel to want the texts too.
  pub record IsAdded (channel : JsString) (texts : List JsString) (before : List (Items N))
      (channels : Channels) (after : List (Items N)) (marked : Channels) : Type 0 where
    pub sound : IsSound after marked
    pub longer : length after ≤ length before + length texts
    pub wanted :
        (c q : JsString)
        → wants 0 after (channel_bits c marked) q
          ≡ (wants 0 before (channel_bits c channels) q || (channel === c && is_member q texts))

  marked_adds :
      (channel : JsString) (provision : Items N) (before : List (Items N)) (channels : Channels)
      (left : List (Items N)) (spliced : Channels) (names : List JsString)
      → length before < 31
      → IsRemoved channel (provision_text provision) before channels left spliced names
      → IsAdded channel
          (provision_text provision ∷ [])
          before
          channels
          (left ++ provision ∷ [])
          (mark_all names (length left) spliced)
  marked_adds channel provision before channels left spliced names h r =
      let n = length left in
      let count = length-append left (provision ∷ []) in
      record {
        sound = record {
          distinct = add_last left provision r.sound.distinct r.free;
          fits = λ c.
              below_power (length (left ++ provision ∷ []))
                (channel_bits c (mark_all names n spliced))
                (λ i beyond. rw (bits-mark_all names i n c spliced (omega (arith, r.shorter))) (
                  ground (arith, count, bit_beyond n i (channel_bits c spliced) (r.sound.fits c))));
        };
        longer = omega (arith, count, r.shorter);
        wanted = λ c q.
            let v = channel_bits c spliced in
            let w = channel_bits c (mark_all names n spliced) in
            let old = wants_same 0 0 left w v q (λ i below.
              rw (bits-mark_all names (0 + i) n c spliced (omega (arith, r.shorter)))
                (ground arith)) in
            let start : 0 + n ≡ n = omega arith in
            rw
              (
                wants-append 0 left (provision ∷ []) w q,
                old,
                start,
                bits-mark_all names n n c spliced (omega (arith, r.shorter)),
                bit_beyond n n v (r.sound.fits c) (omega arith),
              )
              (ground (arith, r.keeps c q));
      }

  add_provision_lem :
      (channel : JsString) (provision : Items N) (before : List (Items N)) (channels : Channels)
      → IsSound before channels
      → length before < 31
      → IsAdded channel
          (provision_text provision ∷ [])
          before
          channels
          (add_provision channel provision (before, channels)).0
          (add_provision channel provision (before, channels)).1
  unfolding add_provision
  add_provision_lem channel provision before channels i h =
      let s = provision_text provision in
      let r = remove_duplicates s 0 before channels (channel ∷ []) in
      marked_adds channel provision before channels r.0 r.1 r.2 h
        (removed channel s before channels i (omega arith))

  add_each_lem :
      (channel : JsString) (l before : List (Items N)) (channels : Channels)
      → IsSound before channels
      → length before + length l ≤ 31
      → IsAdded channel
          (map provision_text l)
          before
          channels
          (add_each channel l (before, channels)).0
          (add_each channel l (before, channels)).1
  unfolding add_each
  add_each_lem channel [] before channels i h = record {
    sound = i;
    longer = omega arith;
    wanted = λ c q. ground arith;
  }
  add_each_lem channel (provision ∷ l) before channels i h =
      let one = add_provision_lem channel provision before channels i (omega arith) in
      let next = add_provision channel provision (before, channels) in
      let r = add_each_lem channel l next.0 next.1 one.sound (omega (arith, one.longer)) in
      record {
        sound = r.sound;
        longer = omega (arith, one.longer, r.longer);
        wanted = λ c q. ground (arith, one.wanted c q, r.wanted c q);
      }

module _ {N X : Type 0} ⦃p : Primitives N⦄ where
  reset_run_channels :
      (limit : ℕ) (s : Session N X)
      → ((reset_run limit s).provisions ≡ s.provisions)
        × ((reset_run limit s).channels ≡ s.channels)
  unfolding reset_run next_cycle
  reset_run_channels limit s = elim (Bool-cases (s.iteration == s.cycle * limit)) [
    | inl begun ↦ rw (begun) (refl, refl)
    | inr running ↦ rw (running) (refl, refl)
  ]

  -- If the provisions of a session have distinct texts, the bits of every channel fit their
  -- number, and there are at most 31 provisions with the ones to add, then after addProvisions a
  -- channel wants by text just what it wanted before, and the given channel also the given
  -- provisions; distinctness and fit remain, and there are no more than the old and the given
  -- provisions.
  pub add_provisions-IsAdded :
      (iterations : ℕ) (channel : JsString) (l : List (Items N)) (s : Session N X)
      → IsSound s.provisions s.channels
      → length s.provisions + length l ≤ 31
      → IsAdded channel
          (map provision_text l)
          s.provisions
          s.channels
          (add_provisions iterations channel l s).provisions
          (add_provisions iterations channel l s).channels
  unfolding add_provisions
  add_provisions-IsAdded iterations channel l s i h =
      let (same, same') = reset_run_channels (iterations * 2) s in
      let opened = set channel (channel_bits channel s.channels) s.channels in
      let sound : IsSound s.provisions opened = record {
        distinct = i.distinct;
        fits = λ c. rw (opened_bits c channel s.channels) (i.fits c);
      } in
      let r = add_each_lem channel l s.provisions opened sound h in
      rw (add_provisions, same, same')
        (record {
          sound = r.sound;
          longer = r.longer;
          wanted = λ c q. r.wanted c q ∙ rw (opened_bits c channel s.channels) refl;
        })
