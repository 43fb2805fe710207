-- ===== src/Device/Setting.antt =====
-- lib/device.ts: `set`, which goes up to the parents with the timestamp. `toClear` is a list, empty
-- where it is undefined. The source writes the two attributes that follow from the given ones into
-- the caller's object; here they are local.
use genieacs.Common.JsMap
use genieacs.Common.JsMap.{JsMap}
use genieacs.Common.Eq.{JsString, js_string_eq}
use genieacs.Common.Words.{and_bits}
use genieacs.Common.Text.{slice}
use genieacs.Common.{
  ℕ, zero, suc, ◌-◌, Bool, true, false, ◌&&◌, not, Option, none, some, List, [], ◌∷◌, ◌++◌, length,
  ltb, ◌==◌, if◌then◌else◌,
}
use genieacs.ParameterPath.{ParameterPath, make}
use genieacs.PathSet
use genieacs.PathSet.{PathSet, PathList}
use genieacs.VersionedMap
use genieacs.VersionedMap.{VersionedMap}
use genieacs.Device.{
  object, flag, Attributes, Timestamps, Clear, DeviceData, add_change, attr_names, change_flag,
}
use genieacs.Device.Attributes.{
  no_attributes, with_attr, normalize, merge, flags_of_changes, latest, time_of,
}

infixl 5 ◌>>=◌
abbrev pub ◌>>=◌ {ℓ κ} : {A : Type ℓ} {B : Type κ} → Option A → (A → Option B) → Option B
none >>= f = none
some a >>= f = f a

-- `get(key)`, at the current revision
abbrev pub current {ℓ} : {V : Type ℓ} → JsString → VersionedMap JsString V → Option V
current k m = VersionedMap.get k m.revision m

-- `set(key, v)` and `delete(key)`, at the current revision
abbrev pub put {ℓ} : {V : Type ℓ} → JsString → V → VersionedMap JsString V → VersionedMap JsString V
put k v m = (VersionedMap.set k v m.revision m).0

abbrev pub remove {ℓ} : {V : Type ℓ} → JsString → VersionedMap JsString V → VersionedMap JsString V
remove k m = (VersionedMap.delete k m.revision m).0

-- `!(timestamp <= currentTimestamp)`
abbrev pub is_later : ℕ → Option ℕ → Bool
is_later t none = true
is_later t (some c) = ltb c t

-- `timestamp > currentTimestamp`
abbrev pub exceeds : ℕ → Option ℕ → Bool
exceeds t none = false
exceeds t (some c) = ltb c t

abbrev pub is_truthy : Option ℕ → Bool
is_truthy none = false
is_truthy (some n) = not (n == 0)

-- `path.slice(0, path.length - 1)`
abbrev pub parent : ParameterPath → ParameterPath
parent p = make (slice 0 (length p.segments - 1) p.segments)

-- the markers of one path that look for one of the flags
unfoldable pub mark_tracked : ℕ → JsMap JsString ℕ → List JsString → List JsString
mark_tracked flags [] changes = changes
mark_tracked flags ((k, f) ∷ r) changes =
    mark_tracked flags r (if and_bits f flags == 0 then changes else add_change k changes)

abbrev pub or_no_markers : Option (JsMap JsString ℕ) → JsMap JsString ℕ
or_no_markers none = []
or_no_markers (some m) = m

-- the markers of all paths found
unfoldable pub mark_paths :
    ℕ → JsMap JsString (JsMap JsString ℕ) → PathList → List JsString → List JsString
unfolding mark_tracked
mark_paths flags trackers [] changes = changes
mark_paths flags trackers (p ∷ r) changes =
    mark_paths flags trackers r
      (mark_tracked flags (or_no_markers (JsMap.get p.string trackers)) changes)

-- what `set` and its callers pass on
abbrev pub SetResult : Type 0
SetResult = Option (DeviceData × List Clear)

-- `{ object: time }`
abbrev pub object_time : ℕ → Timestamps
object_time t object = some t
object_time t _ = none

-- what follows from the change flags
unfoldable pub report : ParameterPath → ℕ → ℕ → ℕ → DeviceData × List Clear → SetResult
unfolding mark_paths
report path timestamp object_stamp flags (dev, to_clear) =
    if flags == 0
    then some (dev, to_clear)
    else if not (and_bits flags 1 == 0)
    then some (
      dev,
      to_clear ++ record { path = path; timestamp = timestamp; times = none; flags = flags } ∷ [],
    )
    else if not (and_bits flags (change_flag object) == 0)
    then some (
      dev,
      to_clear
          ++ record {
            path = path;
            timestamp = 0;
            times = some (object_time object_stamp);
            flags = flags;
          }
            ∷ [],
    )
    else do
      found ← PathSet.find path true false (length path.segments) dev.paths
      some (record dev { changes = mark_paths flags dev.trackers found dev.changes }, to_clear)

-- the recursive call for the parent
abbrev pub Upward : Type 0
Upward = ParameterPath → ℕ → Attributes → DeviceData × List Clear → SetResult

-- the timestamp of the path, and of its parents
unfoldable pub raise_timestamp : Upward → ParameterPath → ℕ → DeviceData × List Clear → SetResult
raise_timestamp up path timestamp (dev, to_clear) =
    if not (is_later timestamp (current path.string dev.timestamps))
    then some (dev, to_clear)
    else let raised = record dev { timestamps = put path.string timestamp dev.timestamps } in
      if ltb 1 (length path.segments)
      then up (parent path) timestamp
          (with_attr object (record { time = timestamp; datum = flag 1 }) no_attributes)
          (raised, to_clear)
      else some (raised, to_clear)

abbrev pub or_no_attributes : Option Attributes → Attributes
or_no_attributes none = no_attributes
or_no_attributes (some a) = a

-- `set` with attributes
unfoldable pub set_given :
    Upward
    → ParameterPath
    → ℕ
    → Option Attributes
    → Attributes
    → DeviceData × List Clear
    → SetResult
unfolding raise_timestamp report
set_given up path timestamp cur given (dev, to_clear) =
    let merged = merge (or_no_attributes cur) given in
    let stamp : ℕ = elim cur [ none ↦ timestamp | some c ↦ latest attr_names timestamp given ] in
    let flags : ℕ = elim cur [ none ↦ 1 | some c ↦ flags_of_changes attr_names c given ] in
    raise_timestamp up path stamp
      (record dev { attributes = put path.string merged dev.attributes }, to_clear)
    >>= report path stamp (time_of (given object)) flags

-- the paths under a wildcard that are older
unfoldable pub outdated : ℕ → VersionedMap JsString ℕ → PathList → List Clear
outdated timestamp timestamps [] = []
outdated timestamp timestamps (p ∷ r) =
    let rest = outdated timestamp timestamps r in
    if exceeds timestamp (current p.string timestamps)
    then record { path = p; timestamp = timestamp; times = none; flags = 0 } ∷ rest
    else rest

-- `set` without attributes
unfoldable pub set_nothing :
    ParameterPath → ℕ → Option Attributes → DeviceData × List Clear → SetResult
unfolding outdated report
set_nothing path timestamp cur (dev, to_clear) =
    let raised = record dev { timestamps = put path.string timestamp dev.timestamps } in
    if not (is_later timestamp (current path.string dev.timestamps))
    then some (dev, to_clear)
    else elim cur [
      | some c ↦
          report path timestamp 0 1
            (record raised { attributes = remove path.string dev.attributes }, to_clear)
      | none ↦ if path.wildcard == 0 then some (raised, to_clear) else do
        found ← PathSet.find path false true (length path.segments) dev.paths
        some (raised, to_clear ++ outdated timestamp raised.timestamps found)
    ]

-- the attributes that are merged into: those of a path without wildcard that has a timestamp
unfoldable pub current_attributes : ParameterPath → DeviceData → Option Attributes
current_attributes path dev =
    if path.wildcard == 0 && is_truthy (current path.string dev.timestamps)
    then current path.string dev.attributes
    else none

-- `set` for a path that is stored
unfoldable pub set_stored :
    Upward → ParameterPath → ℕ → Option Attributes → DeviceData × List Clear → SetResult
unfolding set_given set_nothing current_attributes
set_stored up path timestamp given (dev, to_clear) =
    let cur = current_attributes path dev in
    elim (if path.wildcard == 0 then given else none) [
      | none ↦ set_nothing path timestamp cur (dev, to_clear)
      | some g ↦ set_given up path timestamp cur (normalize g) (dev, to_clear)
    ]

-- `set` for a path and the levels above it, of which there are fewer than `n`; `none` is the error
-- for a path with an alias
unfoldable pub set_level :
    ℕ → ParameterPath → ℕ → Option Attributes → DeviceData × List Clear → SetResult
unfolding set_stored
set_level zero path timestamp given s = none
set_level (suc n) path timestamp given (dev, to_clear) = do
  (p, paths) ← PathSet.add path dev.paths
  set_stored (λ q t a s. set_level n q t (some a) s) p timestamp given
      (record dev { paths = paths }, to_clear)

-- There are as many levels above a path as it has segments.
unfoldable pub set : ParameterPath → ℕ → Option Attributes → List Clear → DeviceData → SetResult
unfolding set_level
set path timestamp given to_clear dev =
    set_level (suc (length path.segments)) path timestamp given (dev, to_clear)
