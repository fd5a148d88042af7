-- ===== src/Delivery/Executor.antt =====
-- PerceptReliabilityExecutor.
use Prim.Native.String.{◌++◌ as append}
use hermes_life_bridge.Prelude.{
  ℕ, Bool, true, false, not, ◌||◌, Option, none, some, List, [], ◌∷◌, String, ◌==◌, if◌then◌else◌,
}
use hermes_life_bridge.Errors.{Result, ok, err, key_error}
use hermes_life_bridge.Exec.{Exec, pure, lift, reads, ◌>>=◌, ◌>>◌, skip_conflict}
use hermes_life_bridge.Calendar.{Calendar}
use hermes_life_bridge.Contract.{
  OperationState, prepared, in_flight, retry_wait, completed, failed_safe, exhausted, percept,
  BridgeOperation, same_state, same_kind, post_init,
}
use hermes_life_bridge.Store.{
  EventValue, text, number, PerceptEvent, Representation, get, reserve_percept, get_percept_event,
  clear_percept_event, field_value, mark_completed, mark_failed_safe, make_retry_ready,
}
use hermes_life_bridge.Retry.{
  RetryDisposition, RetryResult, default_retry_policies, schedule_failed_safe, due_operations,
  begin_attempt,
}
use hermes_life_bridge.Delivery.Setting.{RuntimeReceipt, World, Host, on_store, now, send_percept}

-- `RuntimeReceipt(ok=False, error=...)`
abbrev pub failed : String → RuntimeReceipt
failed message = record {
  accepted = false;
  duplicate = none;
  persisted = none;
  state_sequence = none;
  state_hash = none;
  decision_outcome = none;
  error = some message;
}

-- `RuntimeReceipt(ok=True, duplicate=True, persisted=True)`
abbrev pub duplicate_receipt : RuntimeReceipt
duplicate_receipt = record {
  accepted = true;
  duplicate = some true;
  persisted = some true;
  state_sequence = none;
  state_hash = none;
  decision_outcome = none;
  error = none;
}

-- `{k: v for k, v in event.items() if k != "observed_at"}`
unfoldable pub semantic : PerceptEvent → PerceptEvent
semantic [] = []
semantic ((k, v) ∷ fields) =
    let rest = semantic fields in if k == "observed_at" then rest else (k, v) ∷ rest

-- `stable_id(kind, part, part)`
abbrev pub stable_id : Host → String → String → String → String
stable_id host kind a b = host.uuid5 (append kind (append "|" (append a (append "|" b))))

-- `str(event["idempotency_key"])`
abbrev pub required_text : Option EventValue → Result String
required_text none = err (key_error "idempotency_key")
required_text (some (text s)) = ok s
required_text (some (number n)) = ok n

abbrev is_zero_text : String → Bool
is_zero_text n = n == "0" || n == "0.0" || n == "-0.0"

abbrev or_default : String → String → String
or_default s d = if s == "" then d else s

abbrev code_or : Option String → String
code_or none = "percept_failed_safe"
code_or (some code) = or_default code "percept_failed_safe"

abbrev pub includes : String → List BridgeOperation → Bool
includes id [] = false
includes id (op ∷ ops) = id == op.operation_id || includes id ops

module _ (calendar : Calendar) (digest_head : String → ℕ) (rep : Representation) (host : Host) where
  open rep use {dumps}
  open host use {sha256}

  -- `_request_hash`
  abbrev pub request_hash_of : PerceptEvent → String
  unfolding semantic
  request_hash_of event = sha256 (dumps (semantic event))

  -- `str(event.get("observed_at") or _now())`
  abbrev pub observed_or_now : Option EventValue → Exec World String
  observed_or_now none = now host
  observed_or_now (some (text s)) = if s == "" then now host else pure s
  observed_or_now (some (number n)) = if is_zero_text n then now host else pure n

  -- `_initial_operation`
  unfoldable pub initial_operation : PerceptEvent → Exec World BridgeOperation
  unfolding semantic
  initial_operation event = do
    let hash = request_hash_of event
    key ← lift (required_text (field_value "idempotency_key" event))
    created_at ← observed_or_now (field_value "observed_at" event)
    updated_at ← now host
    lift (
        post_init (record {
          operation_id = stable_id host "percept-operation" key hash;
          kind = percept;
          idempotency_key = key;
          request_hash = hash;
          state = prepared;
          attempt = 0;
          created_at = created_at;
          updated_at = updated_at;
          next_attempt_at = none;
          delivery_outcome = none;
          last_error_code = none;
          schema_version = "v0.4";
        }))

  -- The answer to a failure that was scheduled.
  abbrev pub deferred_or_exhausted : RetryDisposition → RuntimeReceipt
  deferred_or_exhausted RetryDisposition.exhausted = failed "percept_retry_exhausted"
  deferred_or_exhausted _ = failed "percept_retry_deferred"

  abbrev pub schedule_by_state : String → OperationState → Exec World RuntimeReceipt
  schedule_by_state id failed_safe = do
    time ← now host
    result ←
        on_store (schedule_failed_safe calendar digest_head default_retry_policies id time none)
    pure (deferred_or_exhausted result.disposition)
  schedule_by_state id exhausted = pure (failed "percept_retry_exhausted")
  schedule_by_state id _ = pure (failed "percept_delivery_failed")

  abbrev pub settle_failure : String → String → BridgeOperation → Exec World BridgeOperation
  settle_failure id error op =
      if same_state op.state in_flight
      then (do time ← now host; on_store (mark_failed_safe id time (some error)))
      else pure op

  abbrev pub schedule_found : String → String → Option BridgeOperation → Exec World RuntimeReceipt
  schedule_found id error none = pure (failed "percept_operation_missing")
  schedule_found id error (some op) = do
    current ← settle_failure id error op
    schedule_by_state id current.state

  -- `_schedule_failed`
  unfoldable pub schedule_failed : String → String → Exec World RuntimeReceipt
  schedule_failed id error = do found ← on_store (reads (get id)); schedule_found id error found

  abbrev pub settle_accepted : String → RuntimeReceipt → Exec World RuntimeReceipt
  settle_accepted id receipt = do
    time ← now host
    on_store (mark_completed id time)
    on_store (clear_percept_event id)
    pure receipt

  -- What comes of a sending, where `none` is an exception of the transport.
  abbrev pub settle_reply : String → Option RuntimeReceipt → Exec World RuntimeReceipt
  settle_reply id none = schedule_failed id "runtime_transport_exception"
  settle_reply id (some receipt) =
      if receipt.accepted
      then settle_accepted id receipt
      else schedule_failed id "runtime_ack_not_ok"

  abbrev pub deliver : String → Option PerceptEvent → Exec World RuntimeReceipt
  deliver id none = schedule_failed id "percept_outbox_payload_missing"
  deliver id (some event) = do reply ← send_percept host event; settle_reply id reply

  abbrev pub deliver_begun : String → Option RetryResult → Exec World RuntimeReceipt
  deliver_begun id none = pure (failed "percept_retry_claimed")
  deliver_begun id (some begun) = do
    event ← on_store (reads (get_percept_event rep id))
    deliver id event

  unfoldable pub begin_and_deliver : String → BridgeOperation → Exec World RuntimeReceipt
  unfolding schedule_failed
  begin_and_deliver id op =
      if not (same_state op.state prepared) then pure (failed "percept_not_ready") else (do
        time ← now host
        begun ←
            skip_conflict
              (on_store (begin_attempt calendar digest_head default_retry_policies id time none))
        deliver_begun id begun)

  abbrev pub deliver_ready : String → Option BridgeOperation → Exec World RuntimeReceipt
  deliver_ready id none = pure (failed "percept_retry_claimed")
  deliver_ready id (some op) = begin_and_deliver id op

  -- The branch of `attempt` for RETRY_WAIT.
  unfoldable pub release_and_deliver : String → Exec World RuntimeReceipt
  unfolding begin_and_deliver
  release_and_deliver id = do
    time ← now host
    due ←
        on_store
          (due_operations calendar digest_head default_retry_policies time (some percept) 100)
    if includes id due
        then (do
          time' ← now host
          ready ← skip_conflict (on_store (make_retry_ready id time'))
          deliver_ready id ready)
        else pure (failed "percept_retry_deferred")

  abbrev pub attempt_by_state :
      String → BridgeOperation → OperationState → Exec World RuntimeReceipt
  attempt_by_state id op completed = pure duplicate_receipt
  attempt_by_state id op exhausted = pure (failed "percept_retry_exhausted")
  attempt_by_state id op in_flight = pure (failed "percept_in_flight")
  attempt_by_state id op failed_safe = schedule_failed id (code_or op.last_error_code)
  attempt_by_state id op retry_wait = release_and_deliver id
  attempt_by_state id op _ = begin_and_deliver id op

  abbrev pub attempt_found : String → Option BridgeOperation → Exec World RuntimeReceipt
  attempt_found id none = pure (failed "percept_operation_missing")
  attempt_found id (some op) =
      if not (same_kind op.kind percept)
      then pure (failed "percept_operation_kind_mismatch")
      else attempt_by_state id op op.state

  -- `attempt`
  unfoldable pub attempt : String → Exec World RuntimeReceipt
  unfolding schedule_failed begin_and_deliver release_and_deliver
  attempt id = do found ← on_store (reads (get id)); attempt_found id found

  -- `submit`
  unfoldable pub submit : PerceptEvent → Exec World RuntimeReceipt
  unfolding initial_operation attempt
  submit event = do
    op ← initial_operation event
    reserved ← on_store (reserve_percept rep op event)
    attempt reserved.0.operation_id
