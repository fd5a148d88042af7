-- ===== src/Contact/Answers.antt =====
-- The answers of the contact service lower no attempt counter and send nothing.
use hermes_life_bridge.Prelude.{ℕ, Bool, true, not, Option, none, some, [], ◌∷◌, String, ltb}
use hermes_life_bridge.Errors.{ok, value_error, state_conflict, raise_if}
use hermes_life_bridge.Exec.{Exec, pure, lift, reads, ◌>>◌}
use hermes_life_bridge.Exec.Preserves.{
  Preserves-lift, Preserves-pure, Preserves-raise, Preserves-if, Preserves-bind,
}
use hermes_life_bridge.Calendar.{Calendar}
use hermes_life_bridge.Contract.{
  OperationState, prepared, in_flight, retry_wait, completed, failed_safe, delivery_unknown,
  exhausted, BridgeOperation, same_state,
}
use hermes_life_bridge.Store.{Representation}
use hermes_life_bridge.Contact.Evidence.{
  ContactEvidenceOutcome, was_delivered, not_delivered, still_unknown, ContactEvidence,
  same_outcome, evidence_init,
}
use hermes_life_bridge.Contact.Tables.{DeliveryReceipt, Reconciliation, get_reconciliation}
use hermes_life_bridge.Contact.Reconciler.{EvidenceProbe, ContactReconciliationResult, reconcile}
use hermes_life_bridge.Contact.Requests.{save_receipt}
use hermes_life_bridge.Contact.Setting.{
  ContactIntentEnvelope, ContactConfig, ContactWorld, ContactHost, in_tables, current_time,
}
use hermes_life_bridge.Contact.Checks.{joined_id}
use hermes_life_bridge.Contact.Service.{
  answered, ready, delivery_lost, fresh_decision_required, receipt_unavailable, keep_receipt,
  reconcile_now, receipt_of, reconciled_receipt, defer_or_exhaust, answer_by, handle_unknown,
  answer_stored, as_answer, prepare_by_state, prepare_existing,
}
use hermes_life_bridge.Contact.Kept.{
  Keeps, on_stores-Once, in_tables-Once, current_time-Once, reconcile-Held,
}

module _ (calendar : Calendar) (digest_head : String → ℕ) (rep : Representation)
    (host : ContactHost) (config : ContactConfig) (probe : EvidenceProbe) where
  open rep use {sanitize}
  open host use {platform_of, sha256}

  pub reconcile_now-Once :
      (id at : String) → Keeps (reconcile_now calendar digest_head rep host config probe id at)
  reconcile_now-Once id at =
      Preserves-bind (current_time calendar host) _ (current_time-Once calendar host) (λ time.
        on_stores-Once (reconcile sanitize probe time id at)
          (λ n. reconcile-Held n sanitize probe time id at))

  -- A receipt is kept, then the rest.
  pub keep_receipt-Once :
      {A : Type 0} (r : DeliveryReceipt) (m : Exec ContactWorld A)
      → Keeps m
      → Keeps (keep_receipt calendar digest_head rep host config probe r >> m)
  keep_receipt-Once r m h =
      Preserves-bind (keep_receipt calendar digest_head rep host config probe r) (λ _. m)
        (in_tables-Once (save_receipt sanitize platform_of sha256 r)) (λ _. h)

  reconciled_receipt-Once :
      (intent : ContactIntentEnvelope) (e : ContactEvidence) (target : String) (d : Bool)
      → Keeps (reconciled_receipt calendar digest_head rep host config probe intent e target d)
  unfolding reconciled_receipt
  reconciled_receipt-Once intent e target d =
      Preserves-bind
        (lift (
          raise_if (not (same_outcome e.outcome was_delivered))
            (value_error "reconciled_receipt_requires_delivered_evidence")))
        _ (Preserves-lift _)
        (λ _.
          Preserves-bind (current_time calendar host) _ (current_time-Once calendar host) (λ time.
            let id = joined_id host (
              "delivery-receipt-reconciled" ∷ intent.intent_id ∷ intent.message_hash
              ∷ e.provider_message_id ∷ []) in
            let receipt =
              receipt_of calendar digest_head rep host config probe intent id target "delivered"
                e.provider_message_id time d in
            keep_receipt-Once receipt (pure receipt) (Preserves-pure receipt)))

  pub defer_or_exhaust-Once :
      {A : Type 0} (op : BridgeOperation)
      → Keeps (defer_or_exhaust calendar digest_head rep host config probe {A = A} op)
  unfolding defer_or_exhaust
  defer_or_exhaust-Once op =
      Preserves-if (not (same_state op.state failed_safe)) _ _
        (λ _. Preserves-raise (state_conflict "defer_requires_failed_safe"))
        (λ _. Preserves-raise fresh_decision_required)

  answer_by-Once :
      (o : ContactEvidenceOutcome) (result : ContactReconciliationResult)
      (intent : ContactIntentEnvelope) (target : String)
      → Keeps (answer_by calendar digest_head rep host config probe o result intent target)
  answer_by-Once was_delivered result intent target =
      reconciled_receipt-Once intent result.evidence target true
  answer_by-Once not_delivered result intent target =
      Preserves-bind (defer_or_exhaust calendar digest_head rep host config probe result.operation)
        _ (defer_or_exhaust-Once result.operation) (λ _. Preserves-raise delivery_lost)
  answer_by-Once still_unknown result intent target = Preserves-raise delivery_lost

  pub handle_unknown-Once :
      (op : BridgeOperation) (intent : ContactIntentEnvelope) (now target : String)
      → Keeps (handle_unknown calendar digest_head rep host config probe op intent now target)
  unfolding handle_unknown
  handle_unknown-Once op intent now target =
      Preserves-bind (reconcile_now calendar digest_head rep host config probe op.operation_id now)
        _ (reconcile_now-Once op.operation_id now)
        (λ result. answer_by-Once result.evidence.outcome result intent target)

  answer_stored-Once :
      (stored : Option Reconciliation) (intent : ContactIntentEnvelope) (target : String)
      → Keeps (answer_stored calendar digest_head rep host config probe stored intent target)
  answer_stored-Once none intent target = Preserves-raise receipt_unavailable
  answer_stored-Once (some r) intent target =
      Preserves-if (not (same_outcome r.outcome was_delivered)) _ _
        (λ _. Preserves-raise receipt_unavailable)
        (λ _.
          Preserves-bind
            (lift (
              evidence_init (record {
                outcome = was_delivered;
                source = r.source;
                provider_message_id = r.provider_message_id;
              })))
            _ (Preserves-lift _) (λ e. reconciled_receipt-Once intent e target true))

  as_answer-Once :
      (m : Exec ContactWorld DeliveryReceipt)
      → Keeps m
      → Keeps (as_answer calendar digest_head rep host config probe m)
  as_answer-Once m h = Preserves-bind m _ h (λ r. Preserves-pure (answered r))

  prepare_by_state-Once :
      (s : OperationState) (op : BridgeOperation) (intent : ContactIntentEnvelope)
      (now target : String)
      → Keeps (prepare_by_state calendar digest_head rep host config probe s op intent now target)
  prepare_by_state-Once completed op intent now target =
      Preserves-bind (in_tables (reads (λ t. ok (get_reconciliation op.idempotency_key t)))) _
        (in_tables-Once (reads (λ t. ok (get_reconciliation op.idempotency_key t))))
        (λ stored. as_answer-Once _ (answer_stored-Once stored intent target))
  prepare_by_state-Once delivery_unknown op intent now target =
      as_answer-Once _ (handle_unknown-Once op intent now target)
  prepare_by_state-Once in_flight op intent now target = Preserves-raise _
  prepare_by_state-Once exhausted op intent now target = Preserves-raise _
  prepare_by_state-Once failed_safe op intent now target = defer_or_exhaust-Once op
  prepare_by_state-Once retry_wait op intent now target = Preserves-raise _
  prepare_by_state-Once prepared op intent now target =
      Preserves-if (ltb 0 op.attempt) _ _ (λ _. Preserves-raise fresh_decision_required)
        (λ _. Preserves-pure (ready op))

  pub prepare_existing-Once :
      (op : BridgeOperation) (intent : ContactIntentEnvelope) (now target : String)
      → Keeps (prepare_existing calendar digest_head rep host config probe op intent now target)
  unfolding prepare_existing
  prepare_existing-Once op intent now target = prepare_by_state-Once op.state op intent now target
