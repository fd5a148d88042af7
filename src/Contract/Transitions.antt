-- ===== src/Contract/Transitions.antt =====
-- ALLOWED_OPERATION_TRANSITIONS and is_operation_transition_allowed.
use hermes_life_bridge.Prelude.{◌+◌, Bool, true, false, ◌&&◌, ◌||◌, ◌==◌, eqb, leb, if◌then◌else◌}
use hermes_life_bridge.Contract.Types.{
  OperationState, prepared, in_flight, retry_wait, completed, failed_safe, delivery_unknown,
  exhausted, cognition, BridgeOperation, same_state, same_kind,
}

unfoldable pub allowed_transition : OperationState → OperationState → Bool
allowed_transition prepared in_flight = true
allowed_transition in_flight completed = true
allowed_transition in_flight failed_safe = true
allowed_transition in_flight delivery_unknown = true
allowed_transition failed_safe retry_wait = true
allowed_transition failed_safe exhausted = true
allowed_transition retry_wait prepared = true
allowed_transition delivery_unknown completed = true
allowed_transition delivery_unknown failed_safe = true
allowed_transition _ _ = false

-- LATE_COGNITION_COMPLETION_STATES
unfoldable pub is_late_completion_state : OperationState → Bool
is_late_completion_state prepared = true
is_late_completion_state failed_safe = true
is_late_completion_state retry_wait = true
is_late_completion_state _ = false

unfoldable pub same_identity : BridgeOperation → BridgeOperation → Bool
same_identity a b =
    a.operation_id == b.operation_id
    && same_kind a.kind b.kind
    && a.idempotency_key == b.idempotency_key
    && a.request_hash == b.request_hash
    && a.created_at == b.created_at
    && a.schema_version == b.schema_version

unfoldable pub attempt_fits : BridgeOperation → BridgeOperation → Bool
attempt_fits current candidate =
    if same_state current.state prepared && same_state candidate.state in_flight
    then eqb candidate.attempt (current.attempt + 1)
    else eqb candidate.attempt current.attempt

unfoldable pub is_operation_transition_allowed : BridgeOperation → BridgeOperation → Bool
unfolding attempt_fits allowed_transition is_late_completion_state
is_operation_transition_allowed current candidate =
    same_identity current candidate
    && attempt_fits current candidate
    && (allowed_transition current.state candidate.state
        || same_kind current.kind cognition
          && leb 1 current.attempt
          && is_late_completion_state current.state
          && same_state candidate.state completed)
