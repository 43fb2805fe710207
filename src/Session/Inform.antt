-- ===== src/Session/Inform.antt =====
-- lib/session.ts: `inform`.
use genieacs.Common.Eq.{JsString, js_string_eq, ◌===◌}
use genieacs.Common.Text.{codes}
use genieacs.Common.{ℕ, Bool, false, Option, none, some, List, [], ◌∷◌, ◌++◌, if◌then◌else◌}
use genieacs.ParameterPath.{Segment, frag, ParameterPath}
use genieacs.Device.{Scalar, text, number, absent, Attributes, Clear, DeviceData}
use genieacs.Device.Attributes.{no_attributes}
use genieacs.Device.Setting.{set, ◌>>=◌}
use genieacs.Requests.{DeviceId, Reported, InformRequest}
use genieacs.Session.{Session}
use genieacs.Session.Tags.{encode_tag, replace_spaces}
use genieacs.Session.Updates.{
  to_path, update_time, at_revision, with_value, with_no_object, with_read_only, clear_all,
}

-- `[Path, number, Attributes]`; all have the same number, the time of the update
abbrev pub Param : Type 0
Param = ParameterPath × Attributes

abbrev pub string_type : JsString
string_type = codes "xsd:string"

abbrev pub date_type : JsString
date_type = codes "xsd:dateTime"

-- a parameter with a value that is no object and is not writable
abbrev pub constant_param : ℕ → JsString → Scalar → JsString → Option Param
constant_param t path v type_ = do
  p ← to_path path
  some (p, with_no_object t (with_read_only t (with_value t v type_ no_attributes)))

abbrev pub reported_param : ℕ → Reported → Param
reported_param t r = (r.path, with_no_object t (with_value t r.value r.value_type no_attributes))

-- `Events.` and the tag of an event
abbrev pub event_param : ℕ → ℕ → JsString → Option Param
event_param t now event = do
  tag ← encode_tag (replace_spaces false event)
  constant_param t (codes "Events." ++ tag) (number now) date_type

unfoldable pub event_params : ℕ → ℕ → List JsString → Option (List Param)
event_params t now [] = some []
event_params t now (e ∷ l) = do
  p ← event_param t now e
  more ← event_params t now l
  some (p ∷ more)

abbrev pub reported_params : ℕ → List Reported → List Param
reported_params t [] = []
reported_params t (r ∷ l) = reported_param t r ∷ reported_params t l

abbrev pub or_absent : Option JsString → Scalar
or_absent none = absent
or_absent (some v) = text v

-- the parameters of the device's identity
unfoldable pub identity_params : ℕ → DeviceId → Option (List Param)
identity_params t id = do
  m ← constant_param t (codes "DeviceID.Manufacturer") (text id.manufacturer) string_type
  o ← constant_param t (codes "DeviceID.OUI") (text id.oui) string_type
  c ← constant_param t (codes "DeviceID.ProductClass") (or_absent id.product_class) string_type
  s ← constant_param t (codes "DeviceID.SerialNumber") (text id.serial_number) string_type
  some (m ∷ o ∷ c ∷ s ∷ [])

module _ {N X : Type 0} where
  abbrev both_params : ℕ → Session N X → Option (List Param)
  both_params t s = do
    id ← constant_param t (codes "DeviceID.ID") (text s.device_id) string_type
    registered ← constant_param t (codes "Events.Registered") (number s.timestamp) date_type
    some (id ∷ registered ∷ [])

  -- those of a device that was not known before
  unfoldable pub new_params : Session N X → Option (List Param)
  new_params s = let t = update_time s in if s.is_new then both_params t s else some []

  unfoldable pub inform_params : Session N X → InformRequest → Option (List Param)
  inform_params s request =
      let t = update_time s in
      do
        identity ← identity_params t request.device_id
        informed ← constant_param t (codes "Events.Inform") (number s.timestamp) date_type
        events ← event_params t s.timestamp request.event
        others ← new_params s
        some (identity ++ reported_params t request.parameter_list ++ (informed ∷ events) ++ others)

-- `p[0].segments[0] === "Events"`
abbrev pub is_event : List Segment → Bool
is_event (frag f ∷ l) = f === codes "Events"
is_event _ = false

-- the loop that sets the parameters; what an event would clear is left
unfoldable pub set_params :
    ℕ → List Param → List Clear → DeviceData → Option (DeviceData × List Clear)
set_params t [] to_clear dev = some (dev, to_clear)
set_params t ((path, attributes) ∷ l) to_clear dev =
    if is_event path.segments
    then set path t (some attributes) [] dev
      >>= (λ (r : DeviceData × List Clear). set_params t l to_clear r.0)
    else set path t (some attributes) to_clear dev
      >>= (λ (r : DeviceData × List Clear). set_params t l r.1 r.0)

module _ {N X : Type 0} where
  -- `inform`, whose response is always an InformResponse
  unfoldable pub inform : InformRequest → Session N X → Option (Session N X)
  inform request s = do
    params ← inform_params s request
    (dev, to_clear) ← set_params (update_time s) params [] (at_revision 1 s.device_data)
    cleared ← clear_all to_clear dev
    some (record s { device_data = cleared })
