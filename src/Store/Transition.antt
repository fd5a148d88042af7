-- ===== src/Store/Transition.antt =====
-- The transitions of one operation: `_persist_transition`, `_transition_transaction`, and the
-- methods that build a candidate for them.
use Prim.Native.String.{◌++◌ as append}
use hermes_life_bridge.Prelude.{
  ℕ, ◌+◌, Bool, not, ◌&&◌, ◌||◌, Option, none, some, String, ◌==◌, eqb, ltb, if◌then◌else◌,
  update_where, count_where,
}
use hermes_life_bridge.Errors.{Result, ok, state_conflict, raise_if, ◌>>=◌, ◌>>◌}
use hermes_life_bridge.Exec.{Exec, transaction}
use hermes_life_bridge.Contract.{
  OperationState, prepared, in_flight, retry_wait, completed, failed_safe, delivery_unknown,
  exhausted, RetryClass, cognition, contact, DeliveryOutcome, not_attempted, delivered,
  safe_failure, unknown, BridgeOperation, same_state, same_kind, post_init,
  is_operation_transition_allowed, is_late_completion_state,
}
use hermes_life_bridge.Store.Table.{Database, load_for_update}

-- The values of OperationState.
unfoldable pub state_value : OperationState → String
state_value prepared = "prepared"
state_value in_flight = "in_flight"
state_value retry_wait = "retry_wait"
state_value completed = "completed"
state_value failed_safe = "failed_safe"
state_value delivery_unknown = "delivery_unknown"
state_value exhausted = "exhausted"

-- WHERE operation_id=? AND state=? AND attempt=?
unfoldable pub is_version : BridgeOperation → BridgeOperation → Bool
is_version current row =
    row.operation_id == current.operation_id
    && same_state row.state current.state
    && eqb row.attempt current.attempt

-- The columns that the UPDATE sets.
abbrev pub set_columns : BridgeOperation → BridgeOperation → BridgeOperation
set_columns candidate row = record row {
  state = candidate.state;
  attempt = candidate.attempt;
  next_attempt_at = candidate.next_attempt_at;
  delivery_outcome = candidate.delivery_outcome;
  last_error_code = candidate.last_error_code;
  updated_at = candidate.updated_at;
  schema_version = candidate.schema_version;
}

abbrev pub refused_transition : BridgeOperation → BridgeOperation → String
refused_transition current candidate =
    append "transition_not_allowed:"
      (append (state_value current.state) (append ":" (state_value candidate.state)))

-- `_persist_transition`
unfoldable pub persist_transition :
    BridgeOperation → BridgeOperation → Database → Result (BridgeOperation × Database)
persist_transition current candidate db = do
  raise_if (not (is_operation_transition_allowed current candidate))
      (state_conflict (refused_transition current candidate))
  raise_if (not (eqb (count_where (is_version current) db.operations) 1))
      (state_conflict "operation_changed_concurrently")
  ok (
    candidate,
    record db {
      operations = update_where (is_version current) (set_columns candidate) db.operations;
    },
  )

-- `_transition_transaction`: the builder is given the current operation.
unfoldable pub transition_body :
    String
    → (BridgeOperation → Result BridgeOperation)
    → Database
    → Result (BridgeOperation × Database)
transition_body id build db = do
  current ← load_for_update id db
  candidate ← build current
  persist_transition current candidate db

unfoldable pub transition_transaction :
    String → (BridgeOperation → Result BridgeOperation) → Exec Database BridgeOperation
unfolding transition_body transaction
transition_transaction id build = transaction (transition_body id build)

abbrev pub contact_only : DeliveryOutcome → RetryClass → Option DeliveryOutcome
contact_only outcome contact = some outcome
contact_only outcome _ = none

-- A successor: the identity of `current`, and every other field given anew.
abbrev pub successor :
    BridgeOperation → OperationState → ℕ → String → Option DeliveryOutcome → BridgeOperation
successor current state attempt updated_at outcome = record current {
  state = state;
  attempt = attempt;
  updated_at = updated_at;
  next_attempt_at = none;
  delivery_outcome = outcome;
  last_error_code = none;
}

unfoldable pub build_start : String → BridgeOperation → Result BridgeOperation
build_start updated_at current = do
  raise_if (not (same_state current.state prepared))
      (state_conflict "start_attempt_requires_prepared")
  post_init (
      successor current in_flight (current.attempt + 1) updated_at
        (contact_only not_attempted current.kind))

abbrev pub completion_guard : BridgeOperation → Result (Unit {0})
completion_guard current =
    if is_late_completion_state current.state
    then raise_if (not (same_kind current.kind cognition) || ltb current.attempt 1)
        (state_conflict "late_completion_from_retry_state_is_cognition_only")
    else raise_if
        (not (same_state current.state in_flight || same_state current.state delivery_unknown))
        (state_conflict "mark_completed_requires_supported_reconciliation_state")

unfoldable pub build_completed : String → BridgeOperation → Result BridgeOperation
build_completed updated_at current = do
  completion_guard current
  post_init
      (successor current completed current.attempt updated_at (contact_only delivered current.kind))

unfoldable pub build_failed_safe : String → Option String → BridgeOperation → Result BridgeOperation
build_failed_safe updated_at error_code current = do
  raise_if (not (same_state current.state in_flight || same_state current.state delivery_unknown))
      (state_conflict "mark_failed_safe_requires_in_flight_or_delivery_unknown")
  post_init
      (record (successor current failed_safe current.attempt updated_at
        (contact_only safe_failure current.kind)) { last_error_code = error_code })

-- The candidate of mark_delivery_unknown, and of the recovery after a restart.
abbrev pub unknown_candidate : String → Option String → BridgeOperation → BridgeOperation
unknown_candidate updated_at error_code current =
    record (successor current delivery_unknown current.attempt updated_at (some unknown)) {
      last_error_code = error_code;
    }

unfoldable pub build_delivery_unknown :
    String → Option String → BridgeOperation → Result BridgeOperation
build_delivery_unknown updated_at error_code current = do
  raise_if (not (same_kind current.kind contact))
      (state_conflict "delivery_unknown_is_contact_only")
  raise_if (not (same_state current.state in_flight))
      (state_conflict "delivery_unknown_requires_in_flight")
  post_init (unknown_candidate updated_at error_code current)

unfoldable pub build_retry_wait : String → String → BridgeOperation → Result BridgeOperation
build_retry_wait next_attempt_at updated_at current = do
  raise_if (not (same_state current.state failed_safe))
      (state_conflict "schedule_retry_requires_failed_safe")
  post_init
      (record (successor current retry_wait current.attempt updated_at current.delivery_outcome) {
        next_attempt_at = some next_attempt_at;
        last_error_code = current.last_error_code;
      })

unfoldable pub build_retry_ready : String → BridgeOperation → Result BridgeOperation
build_retry_ready updated_at current = do
  raise_if (not (same_state current.state retry_wait))
      (state_conflict "make_retry_ready_requires_retry_wait")
  post_init (
      successor current prepared current.attempt updated_at
        (contact_only not_attempted current.kind))

unfoldable pub build_exhausted : String → BridgeOperation → Result BridgeOperation
build_exhausted updated_at current = do
  raise_if (not (same_state current.state failed_safe))
      (state_conflict "mark_exhausted_requires_failed_safe")
  post_init
      (record (successor current exhausted current.attempt updated_at current.delivery_outcome) {
        last_error_code = current.last_error_code;
      })

unfoldable pub start_attempt : String → String → Exec Database BridgeOperation
start_attempt id updated_at = transition_transaction id (build_start updated_at)

unfoldable pub mark_completed : String → String → Exec Database BridgeOperation
mark_completed id updated_at = transition_transaction id (build_completed updated_at)

unfoldable pub mark_failed_safe : String → String → Option String → Exec Database BridgeOperation
mark_failed_safe id updated_at error_code =
    transition_transaction id (build_failed_safe updated_at error_code)

unfoldable pub mark_delivery_unknown :
    String → String → Option String → Exec Database BridgeOperation
mark_delivery_unknown id updated_at error_code =
    transition_transaction id (build_delivery_unknown updated_at error_code)

unfoldable pub schedule_retry : String → String → String → Exec Database BridgeOperation
schedule_retry id next_attempt_at updated_at =
    transition_transaction id (build_retry_wait next_attempt_at updated_at)

unfoldable pub make_retry_ready : String → String → Exec Database BridgeOperation
make_retry_ready id updated_at = transition_transaction id (build_retry_ready updated_at)

unfoldable pub mark_exhausted : String → String → Exec Database BridgeOperation
mark_exhausted id updated_at = transition_transaction id (build_exhausted updated_at)
