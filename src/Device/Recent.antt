-- ===== src/Device/Recent.antt =====
-- lib/device.ts: `clear` drops no path that is as recent as what it clears.
use genieacs.Common.JsMap
use genieacs.Common.JsMap.{JsMap}
use genieacs.Common.Eq.{JsString, js_string_eq, ◌===◌, ===_iff}
use genieacs.Common.{
  ℕ, ◌≡◌, ◌≤◌, refl, ◌∙◌, ap, true, false, Option, none, some, [], ◌∷◌, length, ◌==◌, if◌then◌else◌,
  arith, Option-cases, Bool-cases, inl, inr,
}
use genieacs.ParameterPath.{ParameterPath}
use genieacs.PathSet.{PathList}
use genieacs.PathSet.Search.{IsMade}
use genieacs.Device.{Timestamps, DeviceData, attr_names}
use genieacs.Device.Setting.{current, or_no_markers}
use genieacs.Device.Newest.{IsNewest, put-IsNewest}
use genieacs.Device.Effects.{IsData}
use genieacs.Device.Ascent.{find-some}
use genieacs.Device.Clearing.{
  ClearScan, clear_attributes, is_cleared, clear_known, clear_one, clear_each, clear,
  descendants_time, clear_times, collect_markers, any_outdated,
}
use genieacs.Device.Keeping.{IsScan, clear_one-Spares}

-- The key has the timestamp `c` in a sound scan.
record Has (k : JsString) (c : ℕ) (s : ClearScan) : Type 0 where
  sound : IsScan s
  timestamp : current k s.timestamps ≡ some c

clear_attributes-Has :
    (k : JsString) (c : ℕ) (p : ParameterPath) (ts : Timestamps) (s : ClearScan)
    → Has k c s
    → Has k c (clear_attributes p ts s)
unfolding clear_attributes
clear_attributes-Has k c p ts s x = elim (Option-cases (current p.string s.attributes)) [
  | inl absent ↦ rw (clear_attributes, absent) x
  | inr (cur, e) ↦ elim (Bool-cases (any_outdated attr_names ts cur)) [
    | inr fresh ↦ rw (clear_attributes, e, fresh) x
    | inl old ↦
        rw (clear_attributes, e, old)
          (record {
            sound = record {
              times = x.sound.times;
              attrs = put-IsNewest p.string _ s.attributes x.sound.attrs;
            };
            timestamp = x.timestamp;
          })
  ]
]

kept-Has :
    (k : JsString) (c len : ℕ) (times : Option Timestamps) (p : ParameterPath) (s : ClearScan)
    → Has k c s
    → Has k c (elim times [
      | none ↦ s
      | some ts ↦ if length p.segments == len then clear_attributes p ts s else s
    ])
kept-Has k c len none p s x = x
kept-Has k c len (some ts) p s x = elim (Bool-cases (length p.segments == len)) [
  | inl itself ↦ rw itself (clear_attributes-Has k c p ts s x)
  | inr below ↦ rw below x
]

module _ (trackers : JsMap JsString (JsMap JsString ℕ)) (t d len : ℕ) (times : Option Timestamps)
    (k : JsString) (c : ℕ) (newer : t ≤ c) (newer_below : d ≤ c) where
  clear_known-Has :
      (p : ParameterPath) (s : ClearScan) → Has k c s → Has k c (clear_known t d len times p c s)
  unfolding clear_known
  clear_known-Has p s x =
      let kept : is_cleared t d len p c ≡ false = ground arith in
      rw (clear_known, kept) (kept-Has k c len times p s x)

  clear_one-Has :
      (p : ParameterPath) (s : ClearScan)
      → Has k c s
      → Has k c (clear_one trackers t d len times p s)
  unfolding clear_one
  clear_one-Has p s x = elim (Bool-cases (p.string === k)) [
    | inr other ↦
        let y = clear_one-Spares k trackers t d len times p s x.sound other in
        record { sound = y.sound; timestamp = y.timestamp ∙ x.timestamp }
    | inl same ↦
        let e : current p.string s.timestamps ≡ some c =
          ap (λ j. current j s.timestamps) ((===_iff p.string k).0 same) ∙ x.timestamp in
        rw (clear_one, e)
          (clear_known-Has p
            (record s {
              marks = collect_markers (or_no_markers (JsMap.get p.string trackers)) s.marks;
            })
            (record {
              sound = record { times = x.sound.times; attrs = x.sound.attrs };
              timestamp = x.timestamp;
            }))
  ]

  clear_each-Has :
      (l : PathList) (s : ClearScan) → Has k c s → Has k c (clear_each trackers t d len times l s)
  unfolding clear_each
  clear_each-Has [] s x = x
  clear_each-Has (p ∷ l) s x =
      clear_each-Has l (clear_one trackers t d len times p s) (clear_one-Has p s x)

-- What `clear` leaves of a recent timestamp.
pub record IsSpared (k : JsString) (c : ℕ) (r : Option DeviceData) : Type 0 where
  pub after : DeviceData
  pub succeeds : r ≡ some after
  pub timestamp : current k after.timestamps ≡ some c
  pub times : IsNewest after.timestamps
  pub attrs : IsNewest after.attributes

-- clear, on data whose indexes are in step and whose maps are at their newest revision,
-- succeeds and leaves every timestamp that is no earlier than the given one and than the one
-- of the cleared object, and both maps stay in order.
pub clear-IsSpared :
    (path : ParameterPath) (k : JsString) (c t : ℕ) (times : Option Timestamps) (flags : ℕ)
    (dev : DeviceData)
    → IsMade path
    → IsData dev
    → current k dev.timestamps ≡ some c
    → t ≤ c
    → descendants_time t times ≤ c
    → IsSpared k c (clear path t times flags dev)
unfolding clear
clear-IsSpared path k c t times flags dev m d h n b =
    let (l, e) =
      find-some path true true (if descendants_time t times == 0 then length path.segments else 99)
        dev.paths m in
    let spared =
      clear_each-Has dev.trackers t (descendants_time t times) (length path.segments)
        (clear_times times) k c n b l
        (record {
          timestamps = dev.timestamps;
          attributes = dev.attributes;
          marks = [];
          flags = flags;
        })
        (record { sound = record { times = d.times; attrs = d.attrs }; timestamp = h }) in
    rw (clear, e)
      (record {
        after = _;
        succeeds = refl;
        timestamp = spared.timestamp;
        times = spared.sound.times;
        attrs = spared.sound.attrs;
      })
