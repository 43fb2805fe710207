-- ===== src/Device/Tracking.antt =====
-- lib/device.ts: `track` and `clearTrackers`.
use genieacs.Common.JsMap
use genieacs.Common.JsMap.{JsMap}
use genieacs.Common.Eq.{JsString, js_string_eq}
use genieacs.Common.Words.{or_bits}
use genieacs.Common.{ℕ, Option, some, List, [], ◌∷◌}
use genieacs.ParameterPath.{ParameterPath}
use genieacs.PathSet
use genieacs.Device.{AttrName, DeviceData, change_flag, remove_change}
use genieacs.Device.Setting.{◌>>=◌, or_no_markers}
use genieacs.Device.Clearing.{or_zero}

-- `f |= CHANGE_FLAGS[attrName]` for all of them
unfoldable pub flags_of : List AttrName → ℕ → ℕ
flags_of [] f = f
flags_of (n ∷ r) f = flags_of r (or_bits f (change_flag n))

-- `track`; `none` is the error for a path with an alias
unfoldable pub track : ParameterPath → JsString → List AttrName → DeviceData → Option DeviceData
unfolding flags_of
track path marker attributes dev = do
  (p, paths) ← PathSet.add path dev.paths
  let markers = or_no_markers (JsMap.get p.string dev.trackers)
  let f = or_bits (or_zero (JsMap.get marker markers)) (flags_of attributes 1)
  some (record dev {
    paths = paths;
    trackers = JsMap.set p.string (JsMap.set marker f markers) dev.trackers;
  })

-- `delete v[tracker]` for every value of the trackers
unfoldable pub delete_marker :
    JsString → JsMap JsString (JsMap JsString ℕ) → JsMap JsString (JsMap JsString ℕ)
delete_marker t [] = []
delete_marker t ((k, v) ∷ r) = (k, JsMap.delete t v) ∷ delete_marker t r

-- `clearTrackers`; a single tracker is the list of it
unfoldable pub clear_trackers : List JsString → DeviceData → DeviceData
unfolding delete_marker remove_change
clear_trackers [] dev = dev
clear_trackers (t ∷ r) dev =
    clear_trackers r (record dev {
      trackers = delete_marker t dev.trackers;
      changes = remove_change t dev.changes;
    })
