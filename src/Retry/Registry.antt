-- ===== src/Retry/Registry.antt =====
-- The policy registry of RetryEngine and its checks.
use hermes_life_bridge.Prelude.{Bool, true, false, not, ◌&&◌}
use hermes_life_bridge.Errors.{Result, ok, retry_engine_error, raise_if, ◌>>◌}
use hermes_life_bridge.Contract.{RetryClass, percept, cognition, contact, RetryPolicy, same_kind}

-- One policy for each class: that none is missing holds by the record.
pub record Policies : Type 0 where
  pub for_percept : RetryPolicy
  pub for_cognition : RetryPolicy
  pub for_contact : RetryPolicy

abbrev pub percept_retry_policy : RetryPolicy
percept_retry_policy = record {
  retry_class = percept;
  max_attempts = 5;
  initial_backoff = 250_000;
  max_backoff = 4_000_000;
  backoff_multiplier = 2000;
  jitter_ratio = 200;
  retry_after_failed_safe = true;
  retry_after_delivery_unknown = false;
  requires_durable_state = true;
  reconcile_before_retry = false;
  schema_version = "v0.4";
}

abbrev pub cognition_retry_policy : RetryPolicy
cognition_retry_policy = record {
  retry_class = cognition;
  max_attempts = 3;
  initial_backoff = 1_000_000;
  max_backoff = 8_000_000;
  backoff_multiplier = 2000;
  jitter_ratio = 200;
  retry_after_failed_safe = true;
  retry_after_delivery_unknown = false;
  requires_durable_state = true;
  reconcile_before_retry = true;
  schema_version = "v0.4";
}

abbrev pub contact_retry_policy : RetryPolicy
contact_retry_policy = record {
  retry_class = contact;
  max_attempts = 2;
  initial_backoff = 2_000_000;
  max_backoff = 8_000_000;
  backoff_multiplier = 2000;
  jitter_ratio = 200;
  retry_after_failed_safe = false;
  retry_after_delivery_unknown = false;
  requires_durable_state = true;
  reconcile_before_retry = false;
  schema_version = "v0.4";
}

-- DEFAULT_RETRY_POLICIES
abbrev pub default_retry_policies : Policies
default_retry_policies = record {
  for_percept = percept_retry_policy;
  for_cognition = cognition_retry_policy;
  for_contact = contact_retry_policy;
}

abbrev pub is_cognition : RetryClass → Bool
is_cognition cognition = true
is_cognition _ = false

abbrev pub is_contact : RetryClass → Bool
is_contact contact = true
is_contact _ = false

-- The body of the constructor's loop over the registry.
check_policy : RetryClass → RetryPolicy → Result (Unit {0})
check_policy kind p = do
  raise_if (not (same_kind p.retry_class kind))
      (retry_engine_error "retry_policy_registry_class_mismatch")
  raise_if (not p.requires_durable_state)
      (retry_engine_error "retry_policy_must_require_durable_state")
  raise_if (is_cognition kind && not p.reconcile_before_retry)
      (retry_engine_error "cognition_retry_requires_reconciliation")
  raise_if (is_contact kind && p.retry_after_delivery_unknown)
      (retry_engine_error "contact_unknown_delivery_cannot_retry")
  raise_if (is_contact kind && p.reconcile_before_retry)
      (retry_engine_error "contact_reconciliation_belongs_to_hlb0044")

-- RetryEngine.__init__
unfoldable pub check_policies : Policies → Result Policies
unfolding check_policy
check_policies ps = do
  check_policy percept ps.for_percept
  check_policy cognition ps.for_cognition
  check_policy contact ps.for_contact
  ok ps

unfoldable pub policy_for : Policies → RetryClass → RetryPolicy
policy_for ps percept = ps.for_percept
policy_for ps cognition = ps.for_cognition
policy_for ps contact = ps.for_contact
