-- ===== src/Delivery/Pump.antt =====
-- `pump`: recover, release and deliver what is pending.
use hermes_life_bridge.Prelude.{
  ℕ, ◌+◌, Bool, true, false, Option, none, some, List, [], ◌∷◌, String, ◌==◌, if◌then◌else◌, take,
  length,
}
use hermes_life_bridge.Errors.{ok}
use hermes_life_bridge.Exec.{Exec, pure, reads, ◌>>=◌, ◌>>◌}
use hermes_life_bridge.Calendar.{Calendar}
use hermes_life_bridge.Contract.{prepared, percept, BridgeOperation, same_state}
use hermes_life_bridge.Store.{Representation, get, list_percept_outbox_operation_ids}
use hermes_life_bridge.Retry.{
  default_retry_policies, schedule_pending_failed_safe, release_due, recover_interrupted_percept,
}
use hermes_life_bridge.Delivery.Setting.{RuntimeReceipt, World, Host, on_store, now}
use hermes_life_bridge.Delivery.Executor.{attempt}

pub record PumpCounts : Type 0 where
  pub attempted : ℕ
  pub completed : ℕ
  pub deferred : ℕ
  pub exhausted : ℕ
  pub outbox_remaining : ℕ

abbrev is_exhausted_error : Option String → Bool
is_exhausted_error none = false
is_exhausted_error (some e) = e == "percept_retry_exhausted"

-- One more attempt, counted by its receipt.
unfoldable pub tally : PumpCounts → RuntimeReceipt → PumpCounts
tally n r =
    if r.accepted
    then record n { attempted = n.attempted + 1; completed = n.completed + 1 }
    else if is_exhausted_error r.error
    then record n { attempted = n.attempted + 1; exhausted = n.exhausted + 1 }
    else record n { attempted = n.attempted + 1; deferred = n.deferred + 1 }

abbrev pub no_counts : PumpCounts
no_counts = record {
  attempted = 0;
  completed = 0;
  deferred = 0;
  exhausted = 0;
  outbox_remaining = 0;
}

module _ (calendar : Calendar) (digest_head : String → ℕ) (rep : Representation) (host : Host) where
  abbrev pub is_ready : Option BridgeOperation → Bool
  is_ready none = false
  is_ready (some op) = same_state op.state prepared

  abbrev pub attempt_if : Bool → String → PumpCounts → Exec World PumpCounts
  attempt_if false id n = pure n
  attempt_if true id n = do
    receipt ← attempt calendar digest_head rep host id
    pure (tally n receipt)

  unfoldable pub attempt_each : List String → PumpCounts → Exec World PumpCounts
  unfolding tally
  attempt_each [] n = pure n
  attempt_each (id ∷ ids) n = do
    found ← on_store (reads (get id))
    n' ← attempt_if (is_ready found) id n
    attempt_each ids n'

  -- The last part of `pump`: deliver what is ready.
  unfoldable pub deliver_pending : ℕ → Exec World PumpCounts
  unfolding attempt_each
  deliver_pending limit = do
    ids ← on_store (reads (λ db. ok (list_percept_outbox_operation_ids db)))
    counts ← attempt_each (take limit ids) no_counts
    left ← on_store (reads (λ db. ok (list_percept_outbox_operation_ids db)))
    pure (record counts { outbox_remaining = length left })

  abbrev pub release_and_deliver_pending : ℕ → Exec World PumpCounts
  release_and_deliver_pending limit = do
    released_at ← now host
    on_store (
        release_due calendar digest_head default_retry_policies released_at (some percept) limit
          none)
    deliver_pending limit

  -- `pump`
  unfoldable pub pump : ℕ → Exec World PumpCounts
  unfolding deliver_pending
  pump limit = do
    recovered_at ← now host
    on_store (recover_interrupted_percept calendar digest_head default_retry_policies recovered_at)
    scheduled_at ← now host
    on_store (
        schedule_pending_failed_safe calendar digest_head default_retry_policies scheduled_at
          (some percept) limit none)
    release_and_deliver_pending limit
