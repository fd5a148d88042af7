-- ===== src/Contact/Process.antt =====
-- ContactService: `process`, from an intent and a decision to a receipt or an exception.
use hermes_life_bridge.Prelude.{ℕ, true, false, Option, none, some, [], ◌∷◌, String, if◌then◌else◌}
use hermes_life_bridge.Errors.{ok}
use hermes_life_bridge.Exec.{Exec, pure, lift, reads, ◌>>=◌, ◌>>◌, skip_conflict}
use hermes_life_bridge.Calendar.{Calendar}
use hermes_life_bridge.Contract.{BridgeOperation}
use hermes_life_bridge.Store.{
  Representation, reserve, mark_completed, mark_failed_safe, mark_delivery_unknown,
}
use hermes_life_bridge.Retry.{default_retry_policies, begin_attempt}
use hermes_life_bridge.Contact.Tables.{DeliveryReceipt, get_receipt}
use hermes_life_bridge.Contact.Reconciler.{EvidenceProbe}
use hermes_life_bridge.Contact.Requests.{reserve_request}
use hermes_life_bridge.Contact.Sending.{SendOutcome}
use hermes_life_bridge.Contact.Setting.{
  ContactIntentEnvelope, ContactDecisionEnvelope, ContactConfig, ContactWorld, ContactHost,
  in_operations, in_tables, emit, current_instant, current_time, hand_over,
}
use hermes_life_bridge.Contact.Checks.{
  ExecutionTarget, validate, execution_target, request_hash, raw_metadata, joined_id,
}
use hermes_life_bridge.Contact.Service.{
  Prepared, answered, ready, keep_receipt, initial_contact, receipt_of, defer_or_exhaust,
  handle_unknown, prepare_existing,
}

module _ (calendar : Calendar) (digest_head : String → ℕ) (rep : Representation)
    (host : ContactHost) (config : ContactConfig) (probe : EvidenceProbe) where
  open rep use {sanitize}
  open host use {sha256, platform_of}

  abbrev pub delivered_receipt : ContactIntentEnvelope → String → String → String → DeliveryReceipt
  delivered_receipt intent target provider_id delivered_at =
      let id =
        joined_id host
          ("delivery-receipt" ∷ intent.intent_id ∷ intent.message_hash ∷ provider_id ∷ []) in
      receipt_of calendar digest_head rep host config probe intent id target "delivered" provider_id
        delivered_at false

  abbrev pub dry_receipt : ContactIntentEnvelope → String → String → DeliveryReceipt
  dry_receipt intent target delivered_at =
      let id = joined_id host ("delivery-receipt" ∷ intent.intent_id ∷ "dry_run" ∷ []) in
      receipt_of calendar digest_head rep host config probe intent id target "dry_run" ""
        delivered_at false

  -- After an accepted sending: the receipt is stored before the operation is completed.
  unfoldable pub settle_accepted :
      BridgeOperation → ContactIntentEnvelope → String → String → Exec ContactWorld DeliveryReceipt
  settle_accepted started intent target provider_id = do
    delivered_at ← current_time calendar host
    let receipt = delivered_receipt intent target provider_id delivered_at
    keep_receipt calendar digest_head rep host config probe receipt
    time ← current_time calendar host
    skip_conflict (in_operations (mark_completed started.operation_id time))
    emit "HERMES_SEND_SUCCESS"
    emit "DELIVERY_RECEIPT_SENT"
    pure receipt

  -- After a sending that is known not to have started.
  unfoldable pub settle_failed_safe : BridgeOperation → Exec ContactWorld DeliveryReceipt
  unfolding defer_or_exhaust
  settle_failed_safe started = do
    time ← current_time calendar host
    failed ←
        in_operations (mark_failed_safe started.operation_id time (some "hermes_send_failed_safe"))
    emit "CONTACT_FAILED_SAFE"
    emit "CONTACT_FAILED"
    current_time calendar host
    defer_or_exhaust calendar digest_head rep host config probe failed

  -- After a sending whose outcome is not known, with the code of the error.
  unfoldable pub settle_unknown :
      BridgeOperation → ContactIntentEnvelope → String → String → Exec ContactWorld DeliveryReceipt
  unfolding handle_unknown
  settle_unknown started intent target code = do
    time ← current_time calendar host
    lost ← in_operations (mark_delivery_unknown started.operation_id time (some code))
    emit "CONTACT_DELIVERY_UNKNOWN"
    emit "CONTACT_FAILED"
    time' ← current_time calendar host
    handle_unknown calendar digest_head rep host config probe lost intent time' target

  abbrev pub settle_outcome :
      SendOutcome
      → BridgeOperation
      → ContactIntentEnvelope
      → String
      → Exec ContactWorld DeliveryReceipt
  settle_outcome (SendOutcome.accepted provider_id) started intent target =
      settle_accepted started intent target provider_id
  settle_outcome (SendOutcome.failed_safe e) started intent target = settle_failed_safe started
  settle_outcome (SendOutcome.outcome_unknown e) started intent target =
      settle_unknown started intent target "hermes_send_outcome_unknown"
  settle_outcome (SendOutcome.other_exception e) started intent target =
      settle_unknown started intent target "sender_exception_outcome_unknown"

  -- From the begun attempt to the end of `process`.
  unfoldable pub send_started :
      BridgeOperation → ContactIntentEnvelope → String → Exec ContactWorld DeliveryReceipt
  unfolding settle_accepted settle_failed_safe settle_unknown
  send_started started intent target = do
    emit "HERMES_SEND_START"
    outcome ← hand_over calendar host started.operation_id target intent.message_text
    settle_outcome outcome started intent target

  unfoldable pub begin_and_send :
      BridgeOperation → ContactIntentEnvelope → String → String → Exec ContactWorld DeliveryReceipt
  unfolding begin_attempt send_started
  begin_and_send op intent now target = do
    begun ←
        in_operations
          (begin_attempt calendar digest_head default_retry_policies op.operation_id now none)
    send_started begun.operation intent target

  abbrev pub send_or_answer :
      Prepared → ContactIntentEnvelope → String → String → Exec ContactWorld DeliveryReceipt
  send_or_answer (answered receipt) intent now target = pure receipt
  send_or_answer (ready op) intent now target = begin_and_send op intent now target

  -- The part of `process` after the reservation of the request, where contacts are delivered.
  unfoldable pub deliver_contact :
      ContactIntentEnvelope → String → String → Exec ContactWorld DeliveryReceipt
  unfolding initial_contact reserve prepare_existing begin_and_send
  deliver_contact intent hash target = do
    now ← current_time calendar host
    op ← lift (initial_contact calendar digest_head rep host config probe intent hash now)
    reserved ← in_operations (reserve rep op)
    prepared ←
        prepare_existing calendar digest_head rep host config probe reserved.0 intent now target
    send_or_answer prepared intent now target

  -- The same where they are not.
  unfoldable pub dry_run : ContactIntentEnvelope → String → Exec ContactWorld DeliveryReceipt
  dry_run intent target = do
    delivered_at ← current_time calendar host
    let receipt = dry_receipt intent target delivered_at
    keep_receipt calendar digest_head rep host config probe receipt
    emit "CONTACT_DRY_RUN"
    pure receipt

  abbrev pub process_new :
      ContactIntentEnvelope → ContactDecisionEnvelope → String → Exec ContactWorld DeliveryReceipt
  process_new intent decision target = do
    let hash = request_hash calendar sanitize host config intent decision target
    in_tables (
        reserve_request sanitize platform_of sha256 intent.idempotency_key hash
          (raw_metadata calendar sanitize host config intent target) intent.created_at)
    if config.contact_delivery_enabled
        then deliver_contact intent hash target
        else dry_run intent target

  abbrev pub answer_cached :
      Option DeliveryReceipt
      → ContactIntentEnvelope
      → ContactDecisionEnvelope
      → String
      → Exec ContactWorld DeliveryReceipt
  answer_cached none intent decision target = process_new intent decision target
  answer_cached (some cached) intent decision target = do
    emit "CONTACT_DEDUPE_HIT"
    pure (record cached { target = target; duplicate = true })

  abbrev pub find_target : ContactIntentEnvelope → ℕ → Exec ContactWorld ExecutionTarget
  find_target intent now w = (execution_target calendar sanitize host config w.route intent now, w)

  -- `process`
  unfoldable pub process :
      ContactIntentEnvelope → ContactDecisionEnvelope → Exec ContactWorld DeliveryReceipt
  unfolding validate get_receipt
  process intent decision = do
    now ← current_instant calendar host
    chosen ← find_target intent now
    emit "CONTACT_REQUEST_RECEIVED"
    now' ← current_instant calendar host
    lift (validate calendar sanitize host config intent decision now')
    cached ← in_tables (reads (λ t. ok (get_receipt intent.idempotency_key t)))
    answer_cached cached intent decision chosen.target
