-- ===== src/Device/Keeping.antt =====
-- lib/device.ts: what `clear` leaves as it was.
use genieacs.Common.JsMap
use genieacs.Common.JsMap.{JsMap}
use genieacs.Common.Eq.{JsString, js_string_eq, ◌===◌}
use genieacs.Common.{
  ℕ, ◌≤◌, ◌≡◌, refl, sym, ◌∙◌, ap, true, false, Option, none, some, [], ◌∷◌, length, ◌==◌,
  if◌then◌else◌, arith, Option-cases, Bool-cases, inl, inr,
}
use genieacs.ParameterPath.{ParameterPath}
use genieacs.PathSet
use genieacs.PathSet.{PathList, PathSet}
use genieacs.PathSet.Search.{IsMade}
use genieacs.PathSet.Exact.{found}
use genieacs.PathSet.Wanted.{is_wanted}
use genieacs.PathSet.Finding.{has-find}
use genieacs.Device.{Timestamps, DeviceData, attr_names}
use genieacs.Device.Setting.{current, or_no_markers}
use genieacs.Device.Newest.{IsNewest, put-IsNewest, current-put, remove-IsNewest, current-remove}
use genieacs.Device.Effects.{IsData}
use genieacs.Device.Ascent.{find-some}
use genieacs.Device.Clearing.{
  ClearScan, clear_attributes, is_cleared, clear_known, clear_one, clear_each, clear,
  descendants_time, clear_times, collect_markers, any_outdated,
}

-- both maps of a scan at their newest revision
pub record IsScan (s : ClearScan) : Type 0 where
  pub times : IsNewest s.timestamps
  pub attrs : IsNewest s.attributes

-- What one path of the loop leaves of another key.
pub record Spares (k : JsString) (before after : ClearScan) : Type 0 where
  pub sound : IsScan after
  pub timestamp : current k after.timestamps ≡ current k before.timestamps
  pub attributes : current k after.attributes ≡ current k before.attributes

clear_attributes-Spares :
    (k : JsString) (p : ParameterPath) (ts : Timestamps) (s : ClearScan)
    → IsScan s
    → (p.string === k) ≡ false
    → Spares k s (clear_attributes p ts s)
unfolding clear_attributes
clear_attributes-Spares k p ts s x o = elim (Option-cases (current p.string s.attributes)) [
  | inl absent ↦
      rw (clear_attributes, absent) (record { sound = x; timestamp = refl; attributes = refl })
  | inr (cur, e) ↦ elim (Bool-cases (any_outdated attr_names ts cur)) [
    | inr fresh ↦
        rw (clear_attributes, e, fresh) (record { sound = x; timestamp = refl; attributes = refl })
    | inl old ↦
        rw (clear_attributes, e, old)
          (record {
            sound = record {
              times = x.times;
              attrs = put-IsNewest p.string _ s.attributes x.attrs;
            };
            timestamp = refl;
            attributes = current-put p.string k _ s.attributes x.attrs ∙ rw o;
          })
  ]
]

kept-Spares :
    (k : JsString) (len : ℕ) (times : Option Timestamps) (p : ParameterPath) (s : ClearScan)
    → IsScan s
    → (p.string === k) ≡ false
    → Spares k s (elim times [
      | none ↦ s
      | some ts ↦ if length p.segments == len then clear_attributes p ts s else s
    ])
kept-Spares k len none p s x o = record { sound = x; timestamp = refl; attributes = refl }
kept-Spares k len (some ts) p s x o = elim (Bool-cases (length p.segments == len)) [
  | inl itself ↦ rw itself (clear_attributes-Spares k p ts s x o)
  | inr below ↦ rw below (record { sound = x; timestamp = refl; attributes = refl })
]

clear_known-Spares :
    (k : JsString) (t d len : ℕ) (times : Option Timestamps) (p : ParameterPath) (c : ℕ)
    (s : ClearScan)
    → IsScan s
    → (p.string === k) ≡ false
    → Spares k s (clear_known t d len times p c s)
unfolding clear_known
clear_known-Spares k t d len times p c s x o = elim (Bool-cases (is_cleared t d len p c)) [
  | inl cleared ↦
      rw (clear_known, cleared)
        (record {
          sound = record {
            times = remove-IsNewest p.string s.timestamps x.times;
            attrs = remove-IsNewest p.string s.attributes x.attrs;
          };
          timestamp = current-remove p.string k s.timestamps x.times ∙ rw o;
          attributes = current-remove p.string k s.attributes x.attrs ∙ rw o;
        })
  | inr kept ↦ rw (clear_known, kept) (kept-Spares k len times p s x o)
]

pub clear_one-Spares :
    (k : JsString) (trackers : JsMap JsString (JsMap JsString ℕ)) (t d len : ℕ)
    (times : Option Timestamps) (p : ParameterPath) (s : ClearScan)
    → IsScan s
    → (p.string === k) ≡ false
    → Spares k s (clear_one trackers t d len times p s)
unfolding clear_one
clear_one-Spares k trackers t d len times p s x o =
    elim (Option-cases (current p.string s.timestamps)) [
      | inl absent ↦
          rw (clear_one, absent)
            (record {
              sound = record { times = x.times; attrs = x.attrs };
              timestamp = refl;
              attributes = refl;
            })
      | inr (c, e) ↦
          let y =
            clear_known-Spares k t d len times p c
              (record s {
                marks = collect_markers (or_no_markers (JsMap.get p.string trackers)) s.marks;
              })
              (record { times = x.times; attrs = x.attrs }) o in
          rw (clear_one, e)
            (record { sound = y.sound; timestamp = y.timestamp; attributes = y.attributes })
    ]

clear_each-Spares :
    (q : ParameterPath) (trackers : JsMap JsString (JsMap JsString ℕ)) (t d len : ℕ)
    (times : Option Timestamps) (l : PathList) (s : ClearScan)
    → IsScan s
    → PathSet.has l q ≡ false
    → Spares q.string s (clear_each trackers t d len times l s)
unfolding clear_each PathSet.has
clear_each-Spares q trackers t d len times [] s x h = record {
  sound = x;
  timestamp = refl;
  attributes = refl;
}
clear_each-Spares q trackers t d len times (p ∷ l) s x h =
    let y = clear_one-Spares q.string trackers t d len times p s x (ground arith) in
    let z =
      clear_each-Spares q trackers t d len times l (clear_one trackers t d len times p s) y.sound
        (ground arith) in
    record {
      sound = z.sound;
      timestamp = z.timestamp ∙ y.timestamp;
      attributes = z.attributes ∙ y.attributes;
    }

-- the depth that `clear` looks down to
abbrev pub clear_depth : ParameterPath → ℕ → Option Timestamps → ℕ
clear_depth path t times = if descendants_time t times == 0 then length path.segments else 99

-- What `clear` leaves of a path.
pub record IsKept (q : ParameterPath) (dev : DeviceData) (r : Option DeviceData) : Type 0 where
  pub after : DeviceData
  pub succeeds : r ≡ some after
  pub timestamp : current q.string after.timestamps ≡ current q.string dev.timestamps
  pub attributes : current q.string after.attributes ≡ current q.string dev.attributes

-- clear of a path of at most 32 segments, on data whose indexes are in step and whose maps are
-- at their newest revision, succeeds and leaves the timestamp and the attributes of every path
-- without alias that is shorter than the cleared one, or longer than 99 segments (than the
-- cleared one, if no time is given), or has at some level another fragment and no wildcard on
-- either side.
pub clear-IsKept :
    (path q : ParameterPath) (t : ℕ) (times : Option Timestamps) (flags : ℕ) (dev : DeviceData)
    → IsMade path
    → length path.segments ≤ 32
    → IsMade q
    → IsData dev
    → is_wanted path true true (clear_depth path t times) q ≡ false
    → IsKept q dev (clear path t times flags dev)
unfolding clear
clear-IsKept path q t times flags dev m short k d o =
    let (l, e) = find-some path true true (clear_depth path t times) dev.paths m in
    let all = has-find path q true true (clear_depth path t times) dev.paths m short k d.in_step in
    let absent : PathSet.has l q ≡ false =
      ap (λ r. PathSet.has (found r) q) (sym e) ∙ ground (arith, all) in
    let spared =
      clear_each-Spares q dev.trackers t (descendants_time t times) (length path.segments)
        (clear_times times) l
        (record {
          timestamps = dev.timestamps;
          attributes = dev.attributes;
          marks = [];
          flags = flags;
        })
        (record { times = d.times; attrs = d.attrs }) absent in
    rw (clear, e)
      (record {
        after = _;
        succeeds = refl;
        timestamp = spared.timestamp;
        attributes = spared.attributes;
      })
