-- ===== src/Contact/Service.antt =====
-- ContactService: `process`, from an intent and a decision to a receipt or an exception.
use hermes_life_bridge.Prelude.{
  ℕ, Bool, true, not, Option, none, some, [], ◌∷◌, String, ltb, if◌then◌else◌,
}
use hermes_life_bridge.Errors.{
  Fault, Result, ok, value_error, state_conflict, contact_error, raise_if,
}
use hermes_life_bridge.Exec.{Exec, pure, raise, lift, reads, ◌>>=◌, ◌>>◌}
use hermes_life_bridge.Calendar.{Calendar}
use hermes_life_bridge.Contract.{
  OperationState, prepared, in_flight, retry_wait, completed, failed_safe, delivery_unknown,
  exhausted, contact, not_attempted, BridgeOperation, same_state, post_init,
}
use hermes_life_bridge.Store.{Representation}
use hermes_life_bridge.Contact.Evidence.{
  ContactEvidenceOutcome, was_delivered, not_delivered, still_unknown, ContactEvidence,
  same_outcome, evidence_init,
}
use hermes_life_bridge.Contact.Tables.{DeliveryReceipt, Reconciliation, get_reconciliation}
use hermes_life_bridge.Contact.Reconciler.{EvidenceProbe, ContactReconciliationResult, reconcile}
use hermes_life_bridge.Contact.Requests.{save_receipt}
use hermes_life_bridge.Contact.Setting.{
  ContactIntentEnvelope, ContactConfig, ContactWorld, ContactHost, on_stores, in_tables,
  current_time,
}
use hermes_life_bridge.Contact.Checks.{joined_id}

-- What `_prepare_existing` returns: a receipt, or the operation to send.
pub data Prepared : Type 0 where
  answered : DeliveryReceipt → Prepared
  ready : BridgeOperation → Prepared

abbrev pub fresh_decision_required : Fault
fresh_decision_required = contact_error "fresh_decision_required" "fresh_decision_required"

abbrev pub delivery_lost : Fault
delivery_lost = contact_error "contact_delivery_unknown" "contact_delivery_unknown"

abbrev pub receipt_unavailable : Fault
receipt_unavailable =
    contact_error "contact_completed_receipt_unavailable" "contact_completed_receipt_unavailable"

module _ (calendar : Calendar) (digest_head : String → ℕ) (rep : Representation)
    (host : ContactHost) (config : ContactConfig) (probe : EvidenceProbe) where
  open rep use {sanitize}
  open host use {clock, lower, sha256, platform_of, uuid5}

  abbrev pub keep_receipt : DeliveryReceipt → Exec ContactWorld (Unit {0})
  keep_receipt r = in_tables (save_receipt sanitize platform_of sha256 r)

  -- `self.reconciler.reconcile`; the evidence is saved with a reading of the clock.
  abbrev pub reconcile_now : String → String → Exec ContactWorld ContactReconciliationResult
  reconcile_now id at = do
    time ← current_time calendar host
    on_stores (reconcile sanitize probe time id at)

  -- `_initial_operation`
  unfoldable pub initial_contact : ContactIntentEnvelope → String → String → Result BridgeOperation
  initial_contact intent hash now = post_init (record {
    operation_id = joined_id host ("contact-operation" ∷ intent.idempotency_key ∷ hash ∷ []);
    kind = contact;
    idempotency_key = intent.idempotency_key;
    request_hash = hash;
    state = prepared;
    attempt = 0;
    created_at = now;
    updated_at = now;
    next_attempt_at = none;
    delivery_outcome = some not_attempted;
    last_error_code = none;
    schema_version = "v0.4";
  })

  abbrev pub receipt_of :
      ContactIntentEnvelope → String → String → String → String → String → Bool → DeliveryReceipt
  receipt_of intent id target status provider_id delivered_at duplicate = record {
    receipt_id = id;
    intent_id = intent.intent_id;
    idempotency_key = intent.idempotency_key;
    life_did = intent.life_did;
    target = target;
    status = status;
    message_hash = intent.message_hash;
    provider_message_id = provider_id;
    delivered_at = delivered_at;
    duplicate = duplicate;
    error = "";
    schema_version = "v0.3";
  }

  -- `_reconciled_receipt`
  unfoldable pub reconciled_receipt :
      ContactIntentEnvelope → ContactEvidence → String → Bool → Exec ContactWorld DeliveryReceipt
  unfolding same_outcome
  reconciled_receipt intent e target duplicate = do
    lift (
        raise_if (not (same_outcome e.outcome was_delivered))
          (value_error "reconciled_receipt_requires_delivered_evidence"))
    let id = joined_id host (
        "delivery-receipt-reconciled" ∷ intent.intent_id ∷ intent.message_hash
        ∷ e.provider_message_id ∷ [])
    time ← current_time calendar host
    let receipt = receipt_of intent id target "delivered" e.provider_message_id time duplicate
    keep_receipt receipt
    pure receipt

  -- `_defer_or_exhaust`, which never returns.
  unfoldable pub defer_or_exhaust : {A : Type 0} → BridgeOperation → Exec ContactWorld A
  unfolding same_state
  defer_or_exhaust op =
      if not (same_state op.state failed_safe)
      then raise (state_conflict "defer_requires_failed_safe")
      else raise fresh_decision_required

  abbrev pub answer_by :
      ContactEvidenceOutcome
      → ContactReconciliationResult
      → ContactIntentEnvelope
      → String
      → Exec ContactWorld DeliveryReceipt
  answer_by was_delivered result intent target =
      reconciled_receipt intent result.evidence target true
  answer_by not_delivered result intent target =
      defer_or_exhaust {A = Unit {0}} result.operation >> raise delivery_lost
  answer_by still_unknown result intent target = raise delivery_lost

  -- `_handle_unknown`
  unfoldable pub handle_unknown :
      BridgeOperation → ContactIntentEnvelope → String → String → Exec ContactWorld DeliveryReceipt
  unfolding reconciled_receipt defer_or_exhaust reconcile
  handle_unknown op intent now target = do
    result ← reconcile_now op.operation_id now
    answer_by result.evidence.outcome result intent target

  abbrev pub answer_stored :
      Option Reconciliation → ContactIntentEnvelope → String → Exec ContactWorld DeliveryReceipt
  answer_stored none intent target = raise receipt_unavailable
  answer_stored (some r) intent target =
      if not (same_outcome r.outcome was_delivered) then raise receipt_unavailable else (do
        e ← lift (
            evidence_init (record {
              outcome = was_delivered;
              source = r.source;
              provider_message_id = r.provider_message_id;
            }))
        reconciled_receipt intent e target true)

  abbrev pub as_answer : Exec ContactWorld DeliveryReceipt → Exec ContactWorld Prepared
  as_answer m = do r ← m; pure (answered r)

  abbrev pub prepare_by_state :
      OperationState
      → BridgeOperation
      → ContactIntentEnvelope
      → String
      → String
      → Exec ContactWorld Prepared
  prepare_by_state completed op intent now target = do
    stored ← in_tables (reads (λ t. ok (get_reconciliation op.idempotency_key t)))
    as_answer (answer_stored stored intent target)
  prepare_by_state delivery_unknown op intent now target =
      as_answer (handle_unknown op intent now target)
  prepare_by_state in_flight op intent now target =
      raise (contact_error "contact_operation_in_flight" "contact_operation_in_flight")
  prepare_by_state exhausted op intent now target =
      raise (contact_error "contact_delivery_exhausted" "contact_delivery_exhausted")
  prepare_by_state failed_safe op intent now target = defer_or_exhaust op
  prepare_by_state retry_wait op intent now target = raise fresh_decision_required
  prepare_by_state prepared op intent now target =
      if ltb 0 op.attempt then raise fresh_decision_required else pure (ready op)

  -- `_prepare_existing`
  unfoldable pub prepare_existing :
      BridgeOperation → ContactIntentEnvelope → String → String → Exec ContactWorld Prepared
  unfolding handle_unknown reconciled_receipt defer_or_exhaust evidence_init same_outcome
      get_reconciliation
  prepare_existing op intent now target = prepare_by_state op.state op intent now target
