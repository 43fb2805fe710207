-- ===== src/Device/Clearing.antt =====
-- lib/device.ts: `clear`.
use genieacs.Common.JsMap
use genieacs.Common.JsMap.{JsMap}
use genieacs.Common.Eq.{JsString, js_string_eq}
use genieacs.Common.Words.{or_bits}
use genieacs.Common.{
  ℕ, Bool, true, false, ◌&&◌, ◌||◌, Option, none, some, List, [], ◌∷◌, length, ltb, ◌==◌,
  if◌then◌else◌, max,
}
use genieacs.ParameterPath.{ParameterPath}
use genieacs.PathSet
use genieacs.PathSet.{PathSet, PathList}
use genieacs.VersionedMap.{VersionedMap}
use genieacs.Device.{
  AttrName, object, value, Stamped, Attributes, Timestamps, DeviceData, attr_names, change_flag,
}
use genieacs.Device.Attributes.{same_name}
use genieacs.Device.Setting.{◌>>=◌, current, put, remove, is_truthy, mark_tracked, or_no_markers}

abbrev pub or_zero : Option ℕ → ℕ
or_zero none = 0
or_zero (some n) = n

-- `changeTrackers[k] |= tracker[k]` for all markers of a path
unfoldable pub collect_markers : JsMap JsString ℕ → JsMap JsString ℕ → JsMap JsString ℕ
collect_markers [] marks = marks
collect_markers ((k, f) ∷ r) marks =
    collect_markers r (JsMap.set k (or_bits (or_zero (JsMap.get k marks)) f) marks)

-- whether `attributes[attrName] > currentAttributes[attrName][0]`, both being there
abbrev pub is_outdated : Option ℕ → Option Stamped → Bool
is_outdated none c = false
is_outdated (some t) none = false
is_outdated (some t) (some c) = ltb c.time t

-- the attributes that are left
unfoldable pub keep_recent : Timestamps → Attributes → Attributes
keep_recent times cur n = if is_outdated (times n) (cur n) then none else cur n

-- the flags of those that are not
unfoldable pub dropped_flags : List AttrName → Timestamps → Attributes → ℕ
dropped_flags [] times cur = 0
dropped_flags (n ∷ r) times cur =
    or_bits (if is_outdated (times n) (cur n) then change_flag n else 0) (dropped_flags r times cur)

unfoldable pub any_outdated : List AttrName → Timestamps → Attributes → Bool
any_outdated [] times cur = false
any_outdated (n ∷ r) times cur = is_outdated (times n) (cur n) || any_outdated r times cur

-- what the loop of `clear` changes
pub record ClearScan : Type 0 where
  pub timestamps : VersionedMap JsString ℕ
  pub attributes : VersionedMap JsString Attributes
  pub marks : JsMap JsString ℕ
  pub flags : ℕ

-- the attributes of a path that stays
unfoldable pub clear_attributes : ParameterPath → Timestamps → ClearScan → ClearScan
unfolding any_outdated dropped_flags
clear_attributes p times s = elim (current p.string s.attributes) [
  | none ↦ s
  | some cur ↦
      if any_outdated attr_names times cur
      then record s {
        attributes = put p.string (keep_recent times cur) s.attributes;
        flags = or_bits s.flags (dropped_flags attr_names times cur);
      }
      else s
]

-- whether a path goes: it is older than `timestamp`, or below the path and older than `descendants`
abbrev pub is_cleared : ℕ → ℕ → ℕ → ParameterPath → ℕ → Bool
is_cleared timestamp descendants len p currently =
    ltb currently timestamp || (ltb currently descendants && ltb len (length p.segments))

-- the body of the loop, behind the trackers
unfoldable pub clear_known :
    ℕ → ℕ → ℕ → Option Timestamps → ParameterPath → ℕ → ClearScan → ClearScan
unfolding clear_attributes
clear_known timestamp descendants len times p currently s =
    if is_cleared timestamp descendants len p currently
    then record s {
      timestamps = remove p.string s.timestamps;
      attributes = remove p.string s.attributes;
      flags = or_bits s.flags 1;
    }
    else elim times [
      | none ↦ s
      | some ts ↦ if length p.segments == len then clear_attributes p ts s else s
    ]

unfoldable pub clear_one :
    JsMap JsString (JsMap JsString ℕ)
    → ℕ
    → ℕ
    → ℕ
    → Option Timestamps
    → ParameterPath
    → ClearScan
    → ClearScan
unfolding collect_markers clear_known
clear_one trackers timestamp descendants len times p s =
    let collected = record s {
      marks = collect_markers (or_no_markers (JsMap.get p.string trackers)) s.marks;
    } in
    elim (current p.string s.timestamps) [
      | none ↦ collected
      | some currently ↦ clear_known timestamp descendants len times p currently collected
    ]

unfoldable pub clear_each :
    JsMap JsString (JsMap JsString ℕ)
    → ℕ
    → ℕ
    → ℕ
    → Option Timestamps
    → PathList
    → ClearScan
    → ClearScan
unfolding clear_one
clear_each trackers timestamp descendants len times [] s = s
clear_each trackers timestamp descendants len times (p ∷ r) s =
    clear_each trackers timestamp descendants len times r
      (clear_one trackers timestamp descendants len times p s)

abbrev pub object_of : Option Timestamps → Option ℕ
object_of none = none
object_of (some ts) = ts object

abbrev pub descendants_time : ℕ → Option Timestamps → ℕ
descendants_time timestamp times = max timestamp (or_zero (object_of times))

-- `!(attributes.object <= attributes.value)`
abbrev is_later_than : ℕ → Option ℕ → Bool
is_later_than o none = true
is_later_than o (some v) = ltb v o

-- an object that is cleared has no value of before
unfoldable pub with_value_time : Timestamps → Timestamps
with_value_time ts n =
    if is_truthy (ts object) && is_later_than (or_zero (ts object)) (ts value) && same_name value n
    then ts object
    else ts n

abbrev pub clear_times : Option Timestamps → Option Timestamps
clear_times none = none
clear_times (some ts) = some (with_value_time ts)

-- `none` is the error for a path with an alias
unfoldable pub clear : ParameterPath → ℕ → Option Timestamps → ℕ → DeviceData → Option DeviceData
unfolding clear_each mark_tracked
clear path timestamp times flags dev =
    let descendants = descendants_time timestamp times in
    let len = length path.segments in
    do
      found ← PathSet.find path true true (if descendants == 0 then len else 99) dev.paths
      let done =
          clear_each dev.trackers timestamp descendants len (clear_times times) found (record {
            timestamps = dev.timestamps;
            attributes = dev.attributes;
            marks = [];
            flags = flags;
          })
      some (record dev {
        timestamps = done.timestamps;
        attributes = done.attributes;
        changes = mark_tracked done.flags done.marks dev.changes;
      })
