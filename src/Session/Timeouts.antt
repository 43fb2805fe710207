-- ===== src/Session/Timeouts.antt =====
-- lib/session.ts: `timeoutOperations`. The two settings that it reads for each operation are functions
-- of the session; the log is left out.
pub mod Success
use genieacs.Common.Eq.{JsString, js_string_eq, ◌===◌}
use genieacs.Common.JsMap.{JsMap, get, set, delete}
use genieacs.Common.Text.{codes}
use genieacs.Common.{
  ℕ, ◌+◌, Bool, true, false, not, Option, none, some, List, [], ◌∷◌, ◌++◌, ltb, if◌then◌else◌,
}
use genieacs.Requests.{Operation, FaultStruct, Fault, TransferCompleteRequest}
use genieacs.Session.{Session}
use genieacs.Session.Downloads.{
  Thrown, type_error, unknown_operation, Ending, returns, throws, ◌>>=◌, revert_download_parameters,
  drop_operation, open_revision, transfer_complete,
}

-- the request that `timeoutOperations` makes up for an operation that counts as a success
abbrev pub made_up_request : JsString → TransferCompleteRequest
made_up_request command_key = record {
  command_key = command_key;
  fault_struct = none;
  start_time = 0;
  complete_time = 0;
}

abbrev pub timeout_fault : Operation → Fault
timeout_fault operation = record {
  code = codes "timeout";
  message = codes "Download operation timed out";
  detail = none;
  timestamp = operation.timestamp;
}

abbrev pub or_no_operations : Option (JsMap JsString Operation) → JsMap JsString Operation
or_no_operations none = []
or_no_operations (some operations) = operations

module _ {N X : Type 0} where
  -- an operation that failed by taking too long
  unfoldable pub fail_operation :
      JsString → Operation → Session N X → Ending (Session N X × List Fault × List Operation)
  unfolding revert_download_parameters drop_operation
  fail_operation command_key operation s =
      revert_download_parameters operation.instance_name
        (drop_operation command_key (or_no_operations s.operations) s)
      >>= (λ (reverted : Session N X).
          returns (reverted, timeout_fault operation ∷ [], operation ∷ []))

  -- an operation that counts as a success; the answer of `transferComplete` is ignored
  unfoldable pub succeed_operation :
      JsString → Session N X → Ending (Session N X × List Fault × List Operation)
  unfolding transfer_complete
  succeed_operation command_key s =
      transfer_complete (made_up_request command_key) s
      >>= (λ (r : Session N X × Option Operation × Option Fault). returns (r.0, [], []))

  -- one operation: `timeout` in milliseconds
  unfoldable pub time_out :
      ℕ
      → Bool
      → JsString
      → Operation
      → Session N X
      → Ending (Session N X × List Fault × List Operation)
  unfolding fail_operation succeed_operation
  time_out timeout success command_key operation s =
      if not (operation.name === codes "Download")
      then throws unknown_operation
      else if ltb s.timestamp (operation.timestamp + timeout)
      then returns (s, [], [])
      else if success
      then succeed_operation command_key s
      else fail_operation command_key operation s

  -- the loop over the operations there were at the start
  unfoldable pub time_out_each :
      (Session N X → ℕ)
      → (Session N X → Bool)
      → JsMap JsString Operation
      → Session N X
      → Ending (Session N X × List Fault × List Operation)
  unfolding time_out
  time_out_each timeout success [] s = returns (s, [], [])
  time_out_each timeout success ((command_key, operation) ∷ l) s = do
    (after, faults, operations) ← time_out (timeout s) (success s) command_key operation s
    (last, more, others) ← time_out_each timeout success l after
    returns (last, faults ++ more, operations ++ others)

  -- `timeoutOperations`
  unfoldable pub timeout_operations :
      (Session N X → ℕ)
      → (Session N X → Bool)
      → Session N X
      → Ending (Session N X × List Fault × List Operation)
  unfolding time_out_each
  timeout_operations timeout success s = elim s.operations [
    | none ↦ throws type_error
    | some operations ↦ time_out_each timeout success operations (open_revision s)
  ]
