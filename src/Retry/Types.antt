-- ===== src/Retry/Types.antt =====
-- RetryDisposition and RetryResult.
use hermes_life_bridge.Prelude.{ℕ, Option}
use hermes_life_bridge.Contract.{BridgeOperation}

pub data RetryDisposition : Type 0 where
  scheduled exhausted completed ready started fresh_decision_required : RetryDisposition

-- The delay is in microseconds.
pub record RetryResult : Type 0 where
  pub disposition : RetryDisposition
  pub operation : BridgeOperation
  pub delay : Option ℕ
