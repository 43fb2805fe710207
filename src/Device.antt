-- ===== src/Device.antt =====
-- lib/device.ts: the data that a session holds of a device. Attributes has the attributes of a
-- parameter and how `set` merges them, Setting `set`, Clearing `clear`, and Tracking `track` and
-- `clearTrackers`.
pub mod Attributes
pub mod Setting
pub mod Newest
pub mod Clearing
pub mod Tracking
pub mod Markers
pub mod Merging
pub mod Effects
pub mod Ascent
pub mod Branches
pub mod Storing
pub mod Keeping
pub mod Recent
pub mod Due
mod Tests
use genieacs.Common.JsMap.{JsMap}
use genieacs.Common.Eq.{JsString, ◌===◌, js_string_eq}
use genieacs.Common.{ℕ, Bool, true, false, ◌||◌, List, [], ◌∷◌, ◌++◌, Option, if◌then◌else◌}
use genieacs.ParameterPath.{ParameterPath}
use genieacs.PathSet.{PathSet}
use genieacs.VersionedMap.{VersionedMap}

-- The names of the attributes.
pub data AttrName : Type 0 where
  object writable value notification access_list : AttrName

pub data Scalar : Type 0 where
  text : JsString → Scalar
  number : ℕ → Scalar
  boolean : Bool → Scalar
  -- null, where a device gives no value
  absent : Scalar

-- What an attribute holds: a flag, a value with its type, or a list of names. Numbers that are not
-- natural are outside the model.
pub data Datum : Type 0 where
  undefined null : Datum
  flag : ℕ → Datum
  typed : Scalar → JsString → Datum
  list : List JsString → Datum

-- `[timestamp, datum]`
pub record Stamped : Type 0 where
  pub time : ℕ
  pub datum : Datum

-- `Attributes`: what stands under a name, if anything
abbrev pub Attributes : Type 0
Attributes = AttrName → Option Stamped

-- `AttributeTimestamps`
abbrev pub Timestamps : Type 0
Timestamps = AttrName → Option ℕ

-- `Clear`; the times are those of `AttributeTimestamps`
pub record Clear : Type 0 where
  pub path : ParameterPath
  pub timestamp : ℕ
  pub times : Option Timestamps
  pub flags : ℕ

-- `DeviceData`. Paths are keys by identity; since the set of paths holds a text once, their texts
-- are the keys here.
pub record DeviceData : Type 0 where
  pub paths : PathSet
  pub timestamps : VersionedMap JsString ℕ
  pub attributes : VersionedMap JsString Attributes
  pub trackers : JsMap JsString (JsMap JsString ℕ)
  pub changes : List JsString

-- `CHANGE_FLAGS`
abbrev pub change_flag : AttrName → ℕ
change_flag object = 2
change_flag writable = 4
change_flag value = 8
change_flag notification = 16
change_flag access_list = 32

abbrev pub attr_names : List AttrName
attr_names = object ∷ writable ∷ value ∷ notification ∷ access_list ∷ []

-- `changes.has(k)`
unfoldable pub changed : List JsString → JsString → Bool
changed [] k = false
changed (j ∷ r) k = j === k || changed r k

-- `changes.add(k)`
unfoldable pub add_change : JsString → List JsString → List JsString
unfolding changed
add_change k s = if changed s k then s else s ++ k ∷ []

-- `changes.delete(k)`
unfoldable pub remove_change : JsString → List JsString → List JsString
remove_change k [] = []
remove_change k (j ∷ r) = if j === k then remove_change k r else j ∷ remove_change k r
