-- ===== src/Contract/WellFormed.antt =====
-- What the constructor of BridgeOperation accepts, said without reference to its checks.
use hermes_life_bridge.Prelude.{
  ◌≡◌, ◌≢◌, ◌↔◌, ◌⊎◌, refl, sym, true, false, not, Option, none, some, String, arith, is_blank,
  is_sha256_hex, is_safe_token, eq_iff,
}
use hermes_life_bridge.Errors.{Result, ok, ◌>>◌}
use hermes_life_bridge.Contract.Types.{
  OperationState, prepared, retry_wait, completed, failed_safe, delivery_unknown, exhausted,
  RetryClass, contact, DeliveryOutcome, not_attempted, delivered, safe_failure, unknown,
  BridgeOperation,
}
use hermes_life_bridge.Contract.Validity.{
  some_and, check_texts, check_tokens, check_schedule, check_outcome, post_init,
}

-- The outcome that a contact has in each state.
abbrev pub ContactOutcome : OperationState → Option DeliveryOutcome → Type 0
ContactOutcome completed o = o ≡ some delivered
ContactOutcome delivery_unknown o = o ≡ some unknown
ContactOutcome failed_safe o = o ≡ some safe_failure
ContactOutcome retry_wait o = o ≡ some safe_failure
ContactOutcome exhausted o = o ≡ some safe_failure
ContactOutcome _ o = (o ≡ none) ⊎ (o ≡ some not_attempted)

abbrev pub OutcomeFits : RetryClass → OperationState → Option DeliveryOutcome → Type 0
OutcomeFits contact state o = ContactOutcome state o
OutcomeFits _ state o = (o ≡ none) × (state ≢ delivery_unknown)

-- Only an operation that waits for a retry has a time for it.
abbrev pub ScheduleFits : OperationState → Option String → Type 0
ScheduleFits retry_wait t = (s : String) × (t ≡ some s)
ScheduleFits _ t = t ≡ none

pub record HasTexts (op : BridgeOperation) : Type 0 where
  pub id_given : is_blank op.operation_id ≡ false
  pub key_given : is_blank op.idempotency_key ≡ false
  pub hash_given : is_blank op.request_hash ≡ false
  pub created_given : is_blank op.created_at ≡ false
  pub updated_given : is_blank op.updated_at ≡ false

pub record HasTokens (op : BridgeOperation) : Type 0 where
  pub hash_hex : is_sha256_hex op.request_hash ≡ true
  pub time_given : some_and is_blank op.next_attempt_at ≡ false
  pub code_safe : some_and (λ s. not (is_safe_token s)) op.last_error_code ≡ false
  pub version : op.schema_version ≡ "v0.4"

pub record IsWellFormed (op : BridgeOperation) : Type 0 where
  pub texts : HasTexts op
  pub tokens : HasTokens op
  pub schedule : ScheduleFits op.state op.next_attempt_at
  pub outcome : OutcomeFits op.kind op.state op.delivery_outcome

pub check_texts_iff : (op : BridgeOperation) → (check_texts op ≡ ok tt) ↔ HasTexts op
unfolding check_texts
check_texts_iff op = (
  λ h. record {
    id_given = ground arith;
    key_given = ground arith;
    hash_given = ground arith;
    created_given = ground arith;
    updated_given = ground arith;
  },
  λ t. rw (t.id_given, t.key_given, t.hash_given, t.created_given, t.updated_given),
)

pub check_tokens_iff : (op : BridgeOperation) → (check_tokens op ≡ ok tt) ↔ HasTokens op
unfolding check_tokens
check_tokens_iff op = (
  λ h. record {
    hash_hex = ground arith;
    time_given = ground arith;
    code_safe = ground arith;
    version = ground (arith, eq_iff op.schema_version "v0.4");
  },
  λ t. rw (t.hash_hex, t.time_given, t.code_safe, (eq_iff op.schema_version "v0.4").1 t.version),
)

pub check_schedule_iff :
    (s : OperationState) (t : Option String) → (check_schedule s t ≡ ok tt) ↔ ScheduleFits s t
unfolding check_schedule
check_schedule_iff retry_wait none = ground arith
check_schedule_iff retry_wait (some t) = (λ h. (t, refl), λ h. refl)
check_schedule_iff _ none = ground arith
check_schedule_iff _ (some t) = ground arith

pub check_outcome_iff :
    (k : RetryClass) (s : OperationState) (o : Option DeliveryOutcome)
    → (check_outcome k s o ≡ ok tt) ↔ OutcomeFits k s o
unfolding check_outcome
check_outcome_iff contact prepared o = ground arith
check_outcome_iff contact _ o = ground arith
check_outcome_iff _ prepared o = ground arith
check_outcome_iff _ _ o = ground arith

-- Four checks in a row return exactly if each does.
chain_iff :
    (a b c d : Result (Unit {0})) {op op' : BridgeOperation}
    → ((do a; b; c; d; ok op) ≡ ok op')
    → (a ≡ ok tt) × (b ≡ ok tt) × (c ≡ ok tt) × (d ≡ ok tt) × (op ≡ op')
chain_iff a b c d h = ground arith

-- The constructor of BridgeOperation accepts exactly the well-formed fields, described without its
-- checks, and returns them unchanged.
pub post_init_iff :
    (op op' : BridgeOperation) → (post_init op ≡ ok op') ↔ (IsWellFormed op × (op' ≡ op))
unfolding post_init
post_init_iff op op' = (
  λ h.
      let c =
        chain_iff (check_texts op) (check_tokens op) (check_schedule op.state op.next_attempt_at)
          (check_outcome op.kind op.state op.delivery_outcome) h in
      (
        record {
          texts = (check_texts_iff op).0 c.0;
          tokens = (check_tokens_iff op).0 c.1;
          schedule = (check_schedule_iff op.state op.next_attempt_at).0 c.2;
          outcome = (check_outcome_iff op.kind op.state op.delivery_outcome).0 c.3;
        },
        sym c.4,
      ),
  λ (w, e). rw (
    (check_texts_iff op).1 w.texts,
    (check_tokens_iff op).1 w.tokens,
    (check_schedule_iff op.state op.next_attempt_at).1 w.schedule,
    (check_outcome_iff op.kind op.state op.delivery_outcome).1 w.outcome,
    e,
  ),
)
