-- ===== src/Session/Downloads.antt =====
-- lib/session.ts: `transferComplete`, `revertDownloadParameters` and `timeoutOperations`.
use genieacs.Common.Eq.{JsString, js_string_eq, ◌===◌}
use genieacs.Common.JsMap.{JsMap, get, set, delete}
use genieacs.Common.Text.{codes}
use genieacs.Common.{
  ℕ, ◌+◌, Bool, true, false, not, Option, none, some, List, [], ◌∷◌, ◌++◌, get_last_or,
  if◌then◌else◌,
}
use genieacs.Device.{
  Scalar, text, number, boolean, Datum, typed, list, value, Stamped, Attributes, Clear, DeviceData,
}
use genieacs.Device.Attributes.{no_attributes}
use genieacs.Device.Setting
use genieacs.Device.Setting.{current}
use genieacs.Requests.{Operation, FaultStruct, Fault, TransferCompleteRequest}
use genieacs.Session.{Session}
use genieacs.Session.Updates.{stored_path, update_time, at_revision, with_value, clear_all}
use genieacs.Session.Inform.{string_type, date_type}

-- What ends an operation early: the error of a path, a property read of undefined, and the error for
-- an operation that is no download.
pub data Thrown : Type 0 where
  bad_path type_error unknown_operation : Thrown

pub data Ending (A : Type 0) : Type 0 where
  returns : A → Ending A
  throws : Thrown → Ending A

infixl 5 ◌>>=◌
abbrev pub ◌>>=◌ : {A B : Type 0} → Ending A → (A → Ending B) → Ending B
returns a >>= f = f a
throws e >>= f = throws e

abbrev pub or_bad_path : {A : Type 0} → Option A → Ending A
or_bad_path none = throws bad_path
or_bad_path (some a) = returns a

-- `(revisions[revisions.length - 1] || 0) + 1`
abbrev pub next_revision : List ℕ → ℕ
next_revision revisions = get_last_or revisions 0 + 1

-- `Downloads.${instance}.…`
abbrev pub download_path : JsString → JsString → JsString
download_path instance_name parameter = codes "Downloads." ++ (instance_name ++ (b'.' ∷ parameter))

-- `lastDownload?.value[1]?.[0] || 0`
abbrev pub or_number_zero : Scalar → Scalar
or_number_zero (text []) = number 0
or_number_zero (boolean false) = number 0
or_number_zero v = v

abbrev pub first_of_value : Datum → Scalar
first_of_value (typed v type_) = or_number_zero v
first_of_value (list (s ∷ l)) = or_number_zero (text s)
first_of_value _ = number 0

abbrev pub value_of_attributes : Option Stamped → Ending Scalar
value_of_attributes none = throws type_error
value_of_attributes (some a) = returns (first_of_value a.datum)

abbrev pub last_download : Option Attributes → Ending Scalar
last_download none = returns (number 0)
last_download (some a) = value_of_attributes (a value)

-- one `paths.add(Path.parse(…))` with the `device.set` of a value behind it
unfoldable pub set_download :
    JsString
    → JsString
    → ℕ
    → Scalar
    → JsString
    → DeviceData × List Clear
    → Ending (DeviceData × List Clear)
set_download instance_name parameter t v type_ (dev, to_clear) = do
  (p, added) ← or_bad_path (stored_path (download_path instance_name parameter) dev)
  or_bad_path (Setting.set p t (some (with_value t v type_ no_attributes)) to_clear added)

abbrev pub or_nothing_touched : Option (JsMap JsString ℕ) → JsMap JsString ℕ
or_nothing_touched none = []
or_nothing_touched (some touched) = touched

-- `faultStruct?.faultCode !== "0"`
abbrev pub is_failed : Option FaultStruct → Bool
is_failed none = true
is_failed (some f) = not (f.fault_code === codes "0")

-- `rpcReq.faultStruct.faultCode` and the other reads for the fault
abbrev pub transfer_fault : Operation → Option FaultStruct → Ending Fault
transfer_fault operation none = throws type_error
transfer_fault operation (some f) = returns (record {
  code = codes "cwmp." ++ f.fault_code;
  message = f.fault_string;
  detail = some f;
  timestamp = operation.timestamp;
})

module _ {N X : Type 0} where
  -- `revertDownloadParameters`
  unfoldable pub revert_download_parameters : JsString → Session N X → Ending (Session N X)
  unfolding set_download
  revert_download_parameters instance_name s =
      let t = update_time s in
      do
        (p, found) ←
            or_bad_path
              (stored_path (download_path instance_name (codes "LastDownload")) s.device_data)
        (q, added) ←
            or_bad_path (stored_path (download_path instance_name (codes "Download")) found)
        last ← last_download (current p.string found.attributes)
        (dev, to_clear) ←
            or_bad_path
              (Setting.set q t (some (with_value t last date_type no_attributes)) [] added)
        cleared ← or_bad_path (clear_all to_clear dev)
        returns (record s { device_data = cleared })

  -- the values of a download that has succeeded
  unfoldable pub record_download :
      TransferCompleteRequest → Operation → Session N X → Ending (Session N X)
  unfolding set_download
  record_download request operation s =
      let t = update_time s in
      let i = operation.instance_name in
      do
        a ←
            set_download i (codes "LastDownload") t (number operation.timestamp) date_type
              (s.device_data, [])
        b ← set_download i (codes "LastFileType") t (text operation.file_type) string_type a
        c ← set_download i (codes "LastFileName") t (text operation.file_name) string_type b
        d ←
            set_download i (codes "LastTargetFileName") t (text operation.target_file_name)
              string_type c
        e ← set_download i (codes "StartTime") t (number request.start_time) date_type d
        (dev, to_clear) ←
            set_download i (codes "CompleteTime") t (number request.complete_time) date_type e
        cleared ← or_bad_path (clear_all to_clear dev)
        returns (record s { device_data = cleared })

  -- `delete operations[commandKey]`, and the mark that it was touched
  unfoldable pub drop_operation : JsString → JsMap JsString Operation → Session N X → Session N X
  drop_operation command_key operations s = record s {
    operations = some (delete command_key operations);
    operations_touched = some (set command_key 1 (or_nothing_touched s.operations_touched));
  }

  -- both maps at the revision behind the last one
  abbrev pub open_revision : Session N X → Session N X
  open_revision s = record s { device_data = at_revision (next_revision s.revisions) s.device_data }

  -- behind the lookup of the operation
  unfoldable pub complete_operation :
      TransferCompleteRequest
      → Operation
      → Session N X
      → Ending (Session N X × Option Operation × Option Fault)
  unfolding revert_download_parameters record_download
  complete_operation request operation s =
      if is_failed request.fault_struct
      then revert_download_parameters operation.instance_name s >>= (λ (reverted : Session N X).
        transfer_fault operation request.fault_struct
        >>= (λ (fault : Fault). returns (reverted, some operation, some fault)))
      else record_download request operation s
        >>= (λ (done : Session N X). returns (done, some operation, none))

  -- `transferComplete`
  unfoldable pub transfer_complete :
      TransferCompleteRequest → Session N X → Ending (Session N X × Option Operation × Option Fault)
  unfolding complete_operation drop_operation
  transfer_complete request s = elim s.operations [
    | none ↦ throws type_error
    | some operations ↦ elim (get request.command_key operations) [
      | none ↦ returns (open_revision s, none, none)
      | some operation ↦
          complete_operation request operation
            (drop_operation request.command_key operations (open_revision s))
    ]
  ]
