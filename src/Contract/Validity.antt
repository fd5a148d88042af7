-- ===== src/Contract/Validity.antt =====
-- BridgeOperation.__post_init__: the checks, in the source's order.
use hermes_life_bridge.Prelude.{
  Bool, false, not, Option, none, some, String, ◌==◌, is_blank, is_sha256_hex, is_safe_token,
}
use hermes_life_bridge.Errors.{Result, ok, err, value_error, raise_if, ◌>>◌}
use hermes_life_bridge.Contract.Types.{
  OperationState, retry_wait, completed, failed_safe, delivery_unknown, exhausted, RetryClass,
  contact, DeliveryOutcome, not_attempted, delivered, safe_failure, unknown, BridgeOperation,
}

-- `value is not None and test(value)`
abbrev pub some_and : (String → Bool) → Option String → Bool
some_and test none = false
some_and test (some s) = test s

-- The identity fields; the type checks hold by the fields' types.
unfoldable pub check_texts : BridgeOperation → Result (Unit {0})
check_texts op = do
  raise_if (is_blank op.operation_id) (value_error "operation_id_required")
  raise_if (is_blank op.idempotency_key) (value_error "idempotency_key_required")
  raise_if (is_blank op.request_hash) (value_error "request_hash_required")
  raise_if (is_blank op.created_at) (value_error "created_at_required")
  raise_if (is_blank op.updated_at) (value_error "updated_at_required")

unfoldable pub check_tokens : BridgeOperation → Result (Unit {0})
check_tokens op = do
  raise_if (not (is_sha256_hex op.request_hash)) (value_error "request_hash_must_be_sha256_hex")
  raise_if (some_and is_blank op.next_attempt_at)
      (value_error "next_attempt_at_must_be_non_empty_string")
  raise_if (some_and (λ s. not (is_safe_token s)) op.last_error_code)
      (value_error "last_error_code_must_be_safe_token")
  raise_if (not (op.schema_version == "v0.4"))
      (value_error "unsupported_reliability_schema_version")

unfoldable pub check_schedule : OperationState → Option String → Result (Unit {0})
check_schedule retry_wait none = err (value_error "retry_wait_requires_next_attempt_at")
check_schedule retry_wait (some t) = ok tt
check_schedule _ none = ok tt
check_schedule _ (some t) = err (value_error "next_attempt_at_only_valid_for_retry_wait")

unfoldable pub check_contact_outcome : OperationState → Option DeliveryOutcome → Result (Unit {0})
check_contact_outcome completed (some delivered) = ok tt
check_contact_outcome completed _ = err (value_error "completed_contact_requires_delivered_outcome")
check_contact_outcome failed_safe (some safe_failure) = ok tt
check_contact_outcome failed_safe _ =
    err (value_error "failed_safe_contact_requires_failed_safe_outcome")
check_contact_outcome delivery_unknown (some unknown) = ok tt
check_contact_outcome delivery_unknown _ =
    err (value_error "delivery_unknown_state_requires_unknown_outcome")
check_contact_outcome exhausted (some safe_failure) = ok tt
check_contact_outcome exhausted _ =
    err (value_error "exhausted_contact_requires_last_failed_safe_outcome")
check_contact_outcome retry_wait (some safe_failure) = ok tt
check_contact_outcome retry_wait _ =
    err (value_error "retry_wait_contact_requires_failed_safe_outcome")
check_contact_outcome _ none = ok tt
check_contact_outcome _ (some not_attempted) = ok tt
check_contact_outcome _ _ = err (value_error "contact_outcome_not_valid_for_operation_state")

unfoldable pub check_no_outcome : OperationState → Option DeliveryOutcome → Result (Unit {0})
check_no_outcome delivery_unknown _ = err (value_error "delivery_unknown_is_contact_only")
check_no_outcome _ none = ok tt
check_no_outcome _ (some o) = err (value_error "delivery_outcome_is_contact_only")

unfoldable pub check_outcome :
    RetryClass → OperationState → Option DeliveryOutcome → Result (Unit {0})
unfolding check_contact_outcome check_no_outcome
check_outcome contact state outcome = check_contact_outcome state outcome
check_outcome _ state outcome = check_no_outcome state outcome

unfoldable pub post_init : BridgeOperation → Result BridgeOperation
post_init op = do
  check_texts op
  check_tokens op
  check_schedule op.state op.next_attempt_at
  check_outcome op.kind op.state op.delivery_outcome
  ok op
