-- ===== src/Session/RequestTests.antt =====
-- Requests of a device at concrete sessions, and the theorems applied to them.
use genieacs.Common.Eq.{JsString, js_string_eq, ◌===◌}
use genieacs.Common.Integer.{ℤ}
use genieacs.Common.Text.{codes}
use genieacs.Common.{
  ℕ, ◌≡◌, inr, refl, Bool, true, false, not, ◌&&◌, Option, none, some, List, [], ◌∷◌, ◌++◌, arith,
  All,
}
use genieacs.ParameterPath.{ParameterPath, Segment, frag, make, legal_char, parse, parse_all}
use genieacs.Common.JsMap.{get, delete}
use genieacs.PathSet.Insertion.{empty-IsIndexed}
use genieacs.VersionedMap.{set_revision}
use genieacs.Device.Due.{IsConcrete}
use genieacs.Device.Effects.{IsData}
use genieacs.Session.Freshness.{IsInformed, inform-IsInformed}
use genieacs.Session.Downloads.{
  throws, type_error, open_revision, transfer_complete, complete_operation,
  revert_download_parameters, drop_operation,
}
use genieacs.Session.Timeouts.{time_out_each, time_out, succeed_operation, timeout_operations}
use genieacs.Session.Timeouts.Success.{IsWaiting, Outcomes, timeout_operations_lem}
use genieacs.Device.{Scalar, text, number, absent}
use genieacs.Device.Attributes.{no_attributes}
use genieacs.Requests.{Reported, InformRequest, Operation}
use genieacs.Session.{Session, init}
use genieacs.Session.RpcIds.{hex_from, hex, generate_rpc_id}
use genieacs.Session.Updates.{
  stored_path, to_path, at_revision, with_value, with_no_object, with_read_only,
}
use genieacs.Session.Inform.{
  Param, string_type, date_type, identity_params, event_params, new_params, inform_params,
  reported_param, inform,
}

abbrev fresh : Session ℤ ℕ
fresh = init 7 (codes "cpe") (codes "1.0") 30

-- `Device.X`
abbrev x_report : Reported
x_report = record {
  path = make (frag (codes "Device") ∷ frag (codes "X") ∷ []);
  value = number 1;
  value_type = codes "xsd:int";
}

abbrev request : InformRequest
request = record {
  device_id = record {
    manufacturer = codes "M";
    oui = codes "O";
    product_class = none;
    serial_number = codes "S";
  };
  event = [];
  retry_count = 0;
  parameter_list = x_report ∷ [];
}

abbrev constant : JsString → JsString → Scalar → JsString → Param
constant a b v type_ = (
  make (frag a ∷ frag b ∷ []),
  with_no_object 8 (with_read_only 8 (with_value 8 v type_ no_attributes)),
)

abbrev identity : List Param
identity =
    constant (codes "DeviceID") (codes "OUI") (text (codes "O")) string_type
    ∷ constant (codes "DeviceID") (codes "ProductClass") absent string_type
    ∷ constant (codes "DeviceID") (codes "SerialNumber") (text (codes "S")) string_type
    ∷ reported_param 8 x_report
    ∷ constant (codes "Events") (codes "Inform") (number 7) date_type
    ∷ []

abbrev manufacturer : Param
manufacturer = constant (codes "DeviceID") (codes "Manufacturer") (text (codes "M")) string_type

fresh_params : inform_params fresh request ≡ some (manufacturer ∷ identity)
unfolding inform_params identity_params event_params new_params to_path parse get parse_all
fresh_params = refl

fresh-IsData : IsData (at_revision 1 fresh.device_data)
unfolding set_revision
fresh-IsData = record {
  in_step = empty-IsIndexed;
  times = record { valid = record { fits = tt; distinct = tt }; newest = refl };
  attrs = record { valid = record { fits = tt; distinct = tt }; newest = refl };
}

abbrev are_legal : JsString → Bool
are_legal [] = true
are_legal (c ∷ s) = legal_char c && are_legal s

are_legal_lem : (s : JsString) → are_legal s ≡ true → All (λ c. legal_char c ≡ true) s
are_legal_lem [] h = tt
are_legal_lem (c ∷ s) h = (ground (arith, h), are_legal_lem s (ground (arith, h)))

abbrev names : JsString → JsString → Bool
names (c ∷ a) (d ∷ b) =
    are_legal (c ∷ a)
    && are_legal (d ∷ b)
    && not ((c ∷ a) === codes "*")
    && not ((d ∷ b) === codes "*")
names a b = false

two_names-IsConcrete :
    (a b : JsString) → names a b ≡ true → IsConcrete (make (frag a ∷ frag b ∷ []))
unfolding make
two_names-IsConcrete [] b h = absurd (ground (arith, h))
two_names-IsConcrete (c ∷ a) [] h = absurd (ground (arith, h))
two_names-IsConcrete (c ∷ a) (d ∷ b) h = record {
  made = (
    refl,
    (
      inr ((λ e. cc), are_legal_lem (c ∷ a) (ground (arith, h))),
      (inr ((λ e. cc), are_legal_lem (d ∷ b) (ground (arith, h))), tt),
    ),
  );
  no_star = (ground (arith, h), (ground (arith, h), tt));
}

all-IsConcrete : All (λ (p : Param). IsConcrete p.0) (manufacturer ∷ identity)
unfolding legal_char
all-IsConcrete = (
  two_names-IsConcrete _ _ refl,
  (
    two_names-IsConcrete _ _ refl,
    (
      two_names-IsConcrete _ _ refl,
      (
        two_names-IsConcrete _ _ refl,
        (two_names-IsConcrete _ _ refl, (two_names-IsConcrete _ _ refl, tt)),
      ),
    ),
  ),
)

inform-IsInformed_example : IsInformed fresh (manufacturer ∷ identity) (inform request fresh)
inform-IsInformed_example =
    inform-IsInformed request fresh manufacturer identity fresh_params all-IsConcrete fresh-IsData

-- A download of 5 that is given 30 seconds, at 50000.
abbrev download : Operation
download = record {
  name = codes "Download";
  timestamp = 5;
  provisions = [];
  channels = [];
  retries = [];
  instance_name = codes "1";
  file_type = codes "F";
  file_name = codes "f";
  target_file_name = [];
}

abbrev downloading : Session ℤ ℕ
downloading = record fresh { timestamp = 50000; operations = some ((codes "key", download) ∷ []) }

timeout_operations_lem_example :
    Outcomes
      (All (IsWaiting 30000 (open_revision downloading)) ((codes "key", download) ∷ []))
      (open_revision downloading)
      (timeout_operations (λ _. 30000) (λ _. true) downloading)
timeout_operations_lem_example =
    timeout_operations_lem (λ _. 30000) ((codes "key", download) ∷ []) downloading refl

-- The error is the one of reading a fault that is not there.
success_throws : timeout_operations (λ _. 30000) (λ _. true) downloading ≡ throws type_error
unfolding timeout_operations time_out_each time_out succeed_operation transfer_complete
    complete_operation revert_download_parameters stored_path to_path parse parse_all get
    drop_operation delete set_revision genieacs.PathSet.add genieacs.PathSet.find
    genieacs.Common.JsMap.set genieacs.Common.Text.join genieacs.ParameterPath.segment_string
    genieacs.VersionedMap.get genieacs.VersionedMap.set genieacs.Device.Setting.set
    genieacs.Session.Updates.clear_all genieacs.Device.Clearing.clear
success_throws = refl

rpc_id :
    generate_rpc_id (record fresh { timestamp = 300; cycle = 1; rpc_count = 258 }) ≡ codes "12c0102"
unfolding generate_rpc_id hex hex_from
rpc_id = refl
