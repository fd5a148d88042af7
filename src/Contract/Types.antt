-- ===== src/Contract/Types.antt =====
-- The enumerations, BridgeOperation's fields, and the tests that the source and SQL make on them.
use hermes_life_bridge.Prelude.{ℕ, ◌≡◌, ◌↔◌, Bool, true, false, Option, String, arith}

pub data OperationState : Type 0 where
  prepared in_flight retry_wait completed failed_safe delivery_unknown exhausted : OperationState

pub data RetryClass : Type 0 where
  percept cognition contact : RetryClass

-- DeliveryOutcome.FAILED_SAFE and DELIVERY_UNKNOWN are `safe_failure` and `unknown` here.
pub data DeliveryOutcome : Type 0 where
  not_attempted delivered safe_failure unknown : DeliveryOutcome

pub record BridgeOperation : Type 0 where
  pub operation_id : String
  pub kind : RetryClass
  pub idempotency_key : String
  pub request_hash : String
  pub state : OperationState
  pub attempt : ℕ
  pub created_at : String
  pub updated_at : String
  pub next_attempt_at : Option String
  pub delivery_outcome : Option DeliveryOutcome
  pub last_error_code : Option String
  pub schema_version : String

unfoldable pub same_state : OperationState → OperationState → Bool
same_state prepared prepared = true
same_state in_flight in_flight = true
same_state retry_wait retry_wait = true
same_state completed completed = true
same_state failed_safe failed_safe = true
same_state delivery_unknown delivery_unknown = true
same_state exhausted exhausted = true
same_state _ _ = false

unfoldable pub same_kind : RetryClass → RetryClass → Bool
same_kind percept percept = true
same_kind cognition cognition = true
same_kind contact contact = true
same_kind _ _ = false

pub same_state_iff : (a b : OperationState) → (same_state a b ≡ true) ↔ (a ≡ b)
unfolding same_state
same_state_iff a b = ground arith

pub same_kind_iff : (a b : RetryClass) → (same_kind a b ≡ true) ↔ (a ≡ b)
unfolding same_kind
same_kind_iff a b = ground arith
