-- ===== src/Session/Updates.antt =====
-- lib/session.ts: what the handlers of `inform` and `transferComplete` have in common. `none` is an
-- exception of the paths or of a tag.
use genieacs.Common.Eq.{JsString}
use genieacs.Common.{ℕ, ◌+◌, Option, none, some, List, [], ◌∷◌}
use genieacs.ParameterPath
use genieacs.ParameterPath.{ParameterPath}
use genieacs.PathSet
use genieacs.VersionedMap
use genieacs.Device.{Scalar, object, writable, value, flag, typed, Attributes, Clear, DeviceData}
use genieacs.Device.Attributes.{with_attr}
use genieacs.Device.Setting.{◌>>=◌}
use genieacs.Device.Clearing.{clear}
use genieacs.Session.{Session}

-- `Path.parse`, whose caches hold nothing but what it gives
unfoldable pub to_path : JsString → Option ParameterPath
to_path s = elim (ParameterPath.parse s (record { recent = []; older = [] })) [
  | none ↦ none
  | some (path, caches) ↦ some path
]

-- `sessionContext.timestamp + sessionContext.iteration + 1`
abbrev pub update_time : {N X : Type 0} → Session N X → ℕ
update_time s = s.timestamp + s.iteration + 1

-- `deviceData.timestamps.revision = revision`, and of the attributes
abbrev pub at_revision : ℕ → DeviceData → DeviceData
at_revision revision dev = record dev {
  timestamps = VersionedMap.set_revision revision dev.timestamps;
  attributes = VersionedMap.set_revision revision dev.attributes;
}

-- `value: [timestamp, [v, type]]`
abbrev pub with_value : ℕ → Scalar → JsString → Attributes → Attributes
with_value t v type_ a = with_attr value (record { time = t; datum = typed v type_ }) a

-- `object: [timestamp, 0]`
abbrev pub with_no_object : ℕ → Attributes → Attributes
with_no_object t a = with_attr object (record { time = t; datum = flag 0 }) a

-- `writable: [timestamp, 0]`
abbrev pub with_read_only : ℕ → Attributes → Attributes
with_read_only t a = with_attr writable (record { time = t; datum = flag 0 }) a

-- `paths.add(Path.parse(…))`
unfoldable pub stored_path : JsString → DeviceData → Option (ParameterPath × DeviceData)
stored_path s dev = do
  path ← to_path s
  (p, paths) ← PathSet.add path dev.paths
  some (p, record dev { paths = paths })

-- `for (const c of toClear) device.clear(…)`
unfoldable pub clear_all : List Clear → DeviceData → Option DeviceData
clear_all [] dev = some dev
clear_all (c ∷ l) dev = clear c.path c.timestamp c.times c.flags dev >>= clear_all l
