-- ===== src/Retry/Engine.antt =====
-- RetryEngine's methods over the store. None of them executes an operation.
use hermes_life_bridge.Prelude.{
  ℕ, ◌+◌, Bool, true, false, not, ◌&&◌, ◌||◌, Option, none, some, List, [], ◌∷◌, String, ltb, leb,
  if◌then◌else◌, take, order_by,
}
use hermes_life_bridge.Errors.{
  Result, ok, err, value_error, key_error, state_conflict, retry_engine_error, raise_if,
}
use hermes_life_bridge.Exec.{Exec, pure, raise, lift, reads, ◌>>=◌, ◌>>◌, skip_conflict, collect}
use hermes_life_bridge.Calendar.{Calendar, parse_timestamp, format_timestamp}
use hermes_life_bridge.Contract.{
  OperationState, prepared, in_flight, retry_wait, failed_safe, RetryClass, percept, cognition,
  BridgeOperation, RetryPolicy, same_state,
}
use hermes_life_bridge.Store.{
  Database, get, list_operations, start_attempt, mark_completed, mark_failed_safe, schedule_retry,
  make_retry_ready, mark_exhausted,
}
use hermes_life_bridge.Retry.Delay.{retry_delay}
use hermes_life_bridge.Retry.Registry.{Policies, policy_for, is_cognition, is_contact}
use hermes_life_bridge.Retry.Due.{due_before, due_entries, operations_of}
use hermes_life_bridge.Retry.Types.{RetryDisposition, RetryResult}

-- `cognition_receipt_accepted`, a callable that may raise, or None.
abbrev pub Probe : Type 0
Probe = Option (BridgeOperation → Result Bool)

abbrev pub result_of : RetryDisposition → BridgeOperation → RetryResult
result_of disposition op = record { disposition = disposition; operation = op; delay = none }

abbrev pub require_found : Option BridgeOperation → Result BridgeOperation
require_found none = err (key_error "operation_not_found")
require_found (some op) = ok op

abbrev pub require_state : OperationState → String → BridgeOperation → Result (Unit {0})
require_state state message op = raise_if (not (same_state op.state state)) (state_conflict message)

-- Whether the probe says that Life Runtime has accepted a receipt; only cognition is reconciled.
unfoldable pub probe_receipt : Probe → BridgeOperation → Result Bool
probe_receipt none op =
    if is_cognition op.kind
    then err (retry_engine_error "cognition_reconciliation_required")
    else err (retry_engine_error "unsupported_reconciliation_policy")
probe_receipt (some accepted) op =
    if is_cognition op.kind
    then accepted op
    else err (retry_engine_error "unsupported_reconciliation_policy")

-- The same where the policy does not reconcile before a retry.
unfoldable pub reconcile_receipt : RetryPolicy → Probe → BridgeOperation → Result Bool
unfolding probe_receipt
reconcile_receipt policy probe op =
    if policy.reconcile_before_retry then probe_receipt probe op else ok false

abbrev pub any_reconciled : Policies → List BridgeOperation → Bool
any_reconciled ps [] = false
any_reconciled ps (op ∷ ops) =
    (policy_for ps op.kind).reconcile_before_retry || any_reconciled ps ops

abbrev pub require_probe : Policies → Probe → List BridgeOperation → Result (Unit {0})
require_probe ps (some accepted) ops = ok tt
require_probe ps none ops =
    raise_if (any_reconciled ps ops) (retry_engine_error "cognition_reconciliation_required")

abbrev pub check_limit : ℕ → String → Result (Unit {0})
check_limit limit message = raise_if (ltb limit 1 || ltb 1000 limit) (value_error message)

module _ (calendar : Calendar) (digest_head : String → ℕ) (policies : Policies) where
  abbrev pub format : ℕ → String
  format = format_timestamp calendar

  unfoldable pub schedule_wait : ℕ → BridgeOperation → Exec Database RetryResult
  schedule_wait now op = do
    delay ← lift (retry_delay digest_head op (policy_for policies op.kind))
    waiting ← schedule_retry op.operation_id (format (now + delay)) (format now)
    pure (record {
      disposition = RetryDisposition.scheduled;
      operation = waiting;
      delay = some delay;
    })

  -- The last part of schedule_failed_safe: give up, or wait for the next attempt.
  unfoldable pub exhaust_or_wait : ℕ → BridgeOperation → Exec Database RetryResult
  unfolding schedule_wait
  exhaust_or_wait now op =
      let policy = policy_for policies op.kind in
      if not policy.retry_after_failed_safe || leb policy.max_attempts op.attempt
      then (do
        gone ← mark_exhausted op.operation_id (format now)
        pure (result_of RetryDisposition.exhausted gone))
      else schedule_wait now op

  -- A receipt that was accepted completes the operation instead.
  abbrev pub complete_or :
      Bool → ℕ → BridgeOperation → Exec Database RetryResult → Exec Database RetryResult
  complete_or true now op m = do
    done ← mark_completed op.operation_id (format now)
    pure (result_of RetryDisposition.completed done)
  complete_or false now op m = m

  unfoldable pub schedule_operation : ℕ → Probe → BridgeOperation → Exec Database RetryResult
  unfolding reconcile_receipt exhaust_or_wait schedule_wait
  schedule_operation now probe op =
      if is_contact op.kind
      then pure (result_of RetryDisposition.fresh_decision_required op)
      else (do
        accepted ← lift (reconcile_receipt (policy_for policies op.kind) probe op)
        complete_or accepted now op (exhaust_or_wait now op))

  -- `schedule_failed_safe`
  unfoldable pub schedule_failed_safe : String → String → Probe → Exec Database RetryResult
  unfolding schedule_operation
  schedule_failed_safe id now probe = do
    instant ← lift (parse_timestamp calendar now)
    found ← reads (get id)
    op ← lift (require_found found)
    lift (require_state failed_safe "retry_engine_requires_failed_safe" op)
    schedule_operation instant probe op

  -- `schedule_pending_failed_safe`
  unfoldable pub schedule_pending_failed_safe :
      String → Option RetryClass → ℕ → Probe → Exec Database (List RetryResult)
  unfolding collect
  schedule_pending_failed_safe now kind limit probe = do
    lift (check_limit limit "retry_pending_limit_out_of_range")
    instant ← lift (parse_timestamp calendar now)
    rows ← reads (list_operations kind (some failed_safe))
    let candidates = take limit rows
    lift (require_probe policies probe candidates)
    collect (λ op. skip_conflict (schedule_failed_safe op.operation_id (format instant) probe))
        candidates

  -- `due_operations`
  unfoldable pub due_operations :
      String → Option RetryClass → ℕ → Exec Database (List BridgeOperation)
  unfolding due_entries order_by
  due_operations now kind limit = do
    lift (check_limit limit "retry_due_limit_out_of_range")
    instant ← lift (parse_timestamp calendar now)
    rows ← reads (list_operations kind (some retry_wait))
    due ← lift (due_entries calendar instant rows)
    pure (take limit (operations_of (order_by due_before due)))

  -- The body of release_due's loop for one operation that is not a contact.
  abbrev pub release_or_complete :
      Bool → String → BridgeOperation → Exec Database (Option RetryResult)
  release_or_complete true now op = skip_conflict (do
    done ← mark_completed op.operation_id now
    pure (result_of RetryDisposition.completed done))
  release_or_complete false now op = skip_conflict (do
    ready ← make_retry_ready op.operation_id now
    pure (result_of RetryDisposition.ready ready))

  unfoldable pub release_operation :
      String → Probe → BridgeOperation → Exec Database (Option RetryResult)
  unfolding reconcile_receipt
  release_operation now probe op = if is_contact op.kind then pure none else (do
    accepted ← lift (reconcile_receipt (policy_for policies op.kind) probe op)
    release_or_complete accepted now op)

  -- `release_due`
  unfoldable pub release_due :
      String → Option RetryClass → ℕ → Probe → Exec Database (List RetryResult)
  unfolding collect release_operation due_operations
  release_due now kind limit probe = do
    instant ← lift (parse_timestamp calendar now)
    due ← due_operations now kind limit
    lift (require_probe policies probe due)
    collect (release_operation (format instant) probe) due

  abbrev pub start_operation : ℕ → BridgeOperation → Exec Database RetryResult
  start_operation now op = do
    running ← start_attempt op.operation_id (format now)
    pure (result_of RetryDisposition.started running)

  unfoldable pub begin_operation : ℕ → Probe → BridgeOperation → Exec Database RetryResult
  unfolding reconcile_receipt
  begin_operation now probe op =
      if is_contact op.kind && ltb 0 op.attempt
      then raise (retry_engine_error "contact_fresh_decision_required")
      else (do
        accepted ← lift (
            if ltb 0 op.attempt
            then reconcile_receipt (policy_for policies op.kind) probe op
            else ok false)
        complete_or accepted now op (start_operation now op))

  -- `begin_attempt`
  unfoldable pub begin_attempt : String → String → Probe → Exec Database RetryResult
  unfolding begin_operation
  begin_attempt id now probe = do
    instant ← lift (parse_timestamp calendar now)
    found ← reads (get id)
    op ← lift (require_found found)
    lift (require_state prepared "begin_attempt_requires_prepared" op)
    begin_operation instant probe op

  unfoldable pub recover_percept : String → BridgeOperation → Exec Database (Option RetryResult)
  recover_percept now op = skip_conflict (do
    mark_failed_safe op.operation_id now (some "process_restart_idempotent_replay_safe")
    schedule_failed_safe op.operation_id now none)

  -- `recover_interrupted_percept`
  unfoldable pub recover_interrupted_percept : String → Exec Database (List RetryResult)
  unfolding collect recover_percept
  recover_interrupted_percept recovered_at = do
    instant ← lift (parse_timestamp calendar recovered_at)
    rows ← reads (list_operations (some percept) (some in_flight))
    collect (recover_percept (format instant)) rows

  abbrev pub settle_cognition :
      Bool
      → String
      → (BridgeOperation → Result Bool)
      → BridgeOperation
      → Exec Database (Option RetryResult)
  settle_cognition true now accepted op = skip_conflict (do
    done ← mark_completed op.operation_id now
    pure (result_of RetryDisposition.completed done))
  settle_cognition false now accepted op = skip_conflict (do
    mark_failed_safe op.operation_id now (some "process_restart_no_accepted_receipt")
    schedule_failed_safe op.operation_id now (some accepted))

  -- The probe comes first: if it raises, the operation stays in flight.
  unfoldable pub recover_cognition :
      String
      → (BridgeOperation → Result Bool)
      → BridgeOperation
      → Exec Database (Option RetryResult)
  recover_cognition now accepted op = do
    seen ← lift (accepted op)
    settle_cognition seen now accepted op

  -- `recover_interrupted_cognition`
  unfoldable pub recover_interrupted_cognition :
      String → (BridgeOperation → Result Bool) → Exec Database (List RetryResult)
  unfolding collect recover_cognition
  recover_interrupted_cognition recovered_at accepted = do
    instant ← lift (parse_timestamp calendar recovered_at)
    rows ← reads (list_operations (some cognition) (some in_flight))
    collect (recover_cognition (format instant) accepted) rows
