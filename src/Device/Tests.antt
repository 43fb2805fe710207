-- ===== src/Device/Tests.antt =====
-- lib/device.ts on a device with no data yet.
use genieacs.Common.JsMap
use genieacs.Common.Text.{codes, join}
use genieacs.Common.Eq.{js_string_eq}
use genieacs.Common.{
  length, ◌≤◌, max, arith, inr, ◌≡◌, refl, true, false, ◌&&◌, not, none, some, [], ◌∷◌,
  if◌then◌else◌,
}
use genieacs.ParameterPath.{ParameterPath, frag, make, legal_char, segment_string}
use genieacs.PathSet
use genieacs.PathSet.Search.{IsMade}
use genieacs.PathSet.Wanted.{is_wanted}
use genieacs.PathSet.Insertion.{empty-IsIndexed}
use genieacs.VersionedMap
use genieacs.VersionedMap.{VersionedMap}
use genieacs.Device.{AttrName, value, text, typed, Attributes, DeviceData, changed, attr_names}
use genieacs.Device.Attributes.{
  no_attributes, with_attr, merge, normalize, time_of, flags_of_changes,
}
use genieacs.Device.Setting.{current, set, current_attributes, or_no_attributes}
use genieacs.Device.Setting.{put}
use genieacs.Device.Newest.{put-IsNewest}
use genieacs.Device.Effects.{IsData}
use genieacs.Device.Branches.{IsStored}
use genieacs.Device.Storing.{set-IsStored}
use genieacs.Device.Clearing.{clear}
use genieacs.Device.Keeping.{IsKept, clear-IsKept, clear_depth}
use genieacs.Device.Recent.{IsSpared, clear-IsSpared}
use genieacs.Device.Merging.{merge-merge}
use genieacs.Device.Tracking.{flags_of, track, clear_trackers}
use genieacs.Device.Markers.{IsTracked, track_lem, clear_trackers_lem, marker_at}

abbrev model : ParameterPath
model = make (frag (b'D' ∷ []) ∷ frag (b'M' ∷ []) ∷ [])

abbrev new_device : DeviceData
new_device = record {
  paths = PathSet.empty;
  timestamps = VersionedMap.empty;
  attributes = VersionedMap.empty;
  trackers = [];
  changes = [];
}

model-IsMade : IsMade model
unfolding make legal_char
model-IsMade = (refl, (inr ((λ e. cc), (refl, tt)), (inr ((λ e. cc), (refl, tt)), tt)))

no_wildcard : model.wildcard ≡ 0
unfolding make
no_wildcard = refl

new_device-IsData : IsData new_device
new_device-IsData = record {
  in_step = empty-IsIndexed;
  times = record { valid = record { fits = tt; distinct = tt }; newest = refl };
  attrs = record { valid = record { fits = tt; distinct = tt }; newest = refl };
}

abbrev model_value : Attributes
model_value =
    with_attr value (record { time = 7; datum = typed (text (codes "X")) (codes "xsd:string") })
      no_attributes

set-IsStored_example :
    IsStored model 5
      (merge (or_no_attributes (current_attributes model new_device)) (normalize model_value))
      new_device
      (set model 5 (some model_value) [] new_device)
set-IsStored_example =
    set-IsStored model 5 model_value [] new_device model-IsMade no_wildcard new_device-IsData

merge-merge_example :
    (merge (merge no_attributes model_value) model_value ≡ merge no_attributes model_value)
    × (flags_of_changes attr_names (merge no_attributes model_value) model_value ≡ 0)
    × ((n : AttrName)
        → time_of (merge no_attributes model_value n)
          ≡ max (time_of (no_attributes n)) (time_of (model_value n)))
merge-merge_example = merge-merge no_attributes model_value

track_lem_example :
    IsTracked model
      (codes "p")
      (flags_of (value ∷ []) 1)
      new_device
      (track model (codes "p") (value ∷ []) new_device)
track_lem_example = track_lem model (codes "p") (value ∷ []) new_device model-IsMade empty-IsIndexed

abbrev tracked_device : DeviceData
tracked_device = record new_device {
  trackers = (codes "D.M", (codes "p", 9) ∷ (codes "q", 1) ∷ []) ∷ [];
  changes = codes "p" ∷ [];
}

clear_trackers_lem_example :
    (marker_at (codes "D.M") (codes "p") (clear_trackers (codes "p" ∷ []) tracked_device).trackers
      ≡ (if changed (codes "p" ∷ []) (codes "p")
          then none
          else marker_at (codes "D.M") (codes "p") tracked_device.trackers))
    × (changed (clear_trackers (codes "p" ∷ []) tracked_device).changes (codes "p") ≡ (
        not (changed (codes "p" ∷ []) (codes "p")) && changed tracked_device.changes (codes "p")))
clear_trackers_lem_example =
    clear_trackers_lem (codes "D.M") (codes "p") (codes "p" ∷ []) tracked_device

abbrev other : ParameterPath
other = make (frag (b'E' ∷ []) ∷ [])

other-IsMade : IsMade other
unfolding make legal_char
other-IsMade = (refl, (inr ((λ e. cc), (refl, tt)), tt))

-- A path below another root is not looked for.
not_matched : is_wanted model true true (clear_depth model 0 none) other ≡ false
unfolding is_wanted make
not_matched = refl

short_model : length model.segments ≤ 32
unfolding make
short_model = omega arith

clear-IsKept_example : IsKept other new_device (clear model 0 none 0 new_device)
clear-IsKept_example =
    clear-IsKept model other 0 none 0 new_device model-IsMade short_model other-IsMade
      new_device-IsData not_matched

-- a device that knows the model since 9
abbrev known_device : DeviceData
known_device = record new_device { timestamps = put model.string 9 VersionedMap.empty }

known_device-IsData : IsData known_device
known_device-IsData = record {
  in_step = empty-IsIndexed;
  times = put-IsNewest model.string 9 VersionedMap.empty new_device-IsData.times;
  attrs = new_device-IsData.attrs;
}

known_since : current model.string known_device.timestamps ≡ some 9
unfolding make VersionedMap.set VersionedMap.get JsMap.get join segment_string JsMap.set
known_since = refl

clear-IsSpared_example : IsSpared model.string 9 (clear model 8 none 0 known_device)
clear-IsSpared_example =
    clear-IsSpared model model.string 9 8 none 0 known_device model-IsMade known_device-IsData
      known_since (omega arith) (omega arith)
