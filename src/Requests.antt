-- ===== src/Requests.antt =====
-- lib/types.ts: what a device sends, and what a session keeps of an operation that the device runs.
use genieacs.Common.Eq.{JsString}
use genieacs.Common.JsMap.{JsMap}
use genieacs.Common.{ℕ, Option, List}
use genieacs.ParameterPath.{ParameterPath}
use genieacs.Device.{Scalar}

-- `Operation`, with its `args`
pub record Operation : Type 0 where
  pub name : JsString
  pub timestamp : ℕ
  pub provisions : List (List JsString)
  pub channels : JsMap JsString ℕ
  pub retries : JsMap JsString ℕ
  pub instance_name : JsString
  pub file_type : JsString
  pub file_name : JsString
  pub target_file_name : JsString

-- One fault of SetParameterValues.
pub record SpvFault : Type 0 where
  pub parameter_name : JsString
  pub fault_code : JsString
  pub fault_string : JsString

-- `FaultStruct`
pub record FaultStruct : Type 0 where
  pub fault_code : JsString
  pub fault_string : JsString
  pub set_parameter_values_fault : List SpvFault

-- `Fault`
pub record Fault : Type 0 where
  pub code : JsString
  pub message : JsString
  pub detail : Option FaultStruct
  pub timestamp : ℕ

-- `deviceId` of an Inform
pub record DeviceId : Type 0 where
  pub manufacturer : JsString
  pub oui : JsString
  -- none where the parser of SOAP leaves null
  pub product_class : Option JsString
  pub serial_number : JsString

-- A parameter with its value and type.
pub record Reported : Type 0 where
  pub path : ParameterPath
  pub value : Scalar
  pub value_type : JsString

-- `InformRequest`
pub record InformRequest : Type 0 where
  pub device_id : DeviceId
  pub event : List JsString
  pub retry_count : ℕ
  pub parameter_list : List Reported

-- `TransferCompleteRequest`
pub record TransferCompleteRequest : Type 0 where
  pub command_key : JsString
  pub fault_struct : Option FaultStruct
  pub start_time : ℕ
  pub complete_time : ℕ
