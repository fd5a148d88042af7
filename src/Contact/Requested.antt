-- ===== src/Contact/Requested.antt =====
-- A request for a contact sends no operation that was tried.
use hermes_life_bridge.Prelude.{ℕ, ◌≡◌, refl, sym, ap, subst, ◌∙◌, Bool, Option, none, some, String}
use hermes_life_bridge.Errors.{ok}
use hermes_life_bridge.Exec.{Exec, lift, reads, ◌>>=◌, pair_eq}
use hermes_life_bridge.Exec.Preserves.{
  Preserves-lift, Preserves-pure, Preserves-if, Preserves-bind, Preserves-continue,
}
use hermes_life_bridge.Calendar.{Calendar}
use hermes_life_bridge.Contract.{BridgeOperation}
use hermes_life_bridge.Store.{Representation, reserve, tried, reserve-Counted, reserve-AtLeast}
use hermes_life_bridge.Contact.Tables.{DeliveryReceipt, get_receipt}
use hermes_life_bridge.Contact.Reconciler.{EvidenceProbe}
use hermes_life_bridge.Contact.Requests.{reserve_request}
use hermes_life_bridge.Contact.Setting.{
  ContactIntentEnvelope, ContactDecisionEnvelope, ContactConfig, ContactWorld, ContactHost,
  in_operations, in_tables, current_instant,
}
use hermes_life_bridge.Contact.Checks.{validate, request_hash, raw_metadata}
use hermes_life_bridge.Contact.Service.{
  Prepared, answered, ready, initial_contact, prepare_existing,
}
use hermes_life_bridge.Contact.Process.{
  dry_receipt, send_or_answer, deliver_contact, dry_run, answer_cached, find_target, process,
}
use hermes_life_bridge.Contact.Kept.{times_sent, Once, Keeps, in_operations-Once, in_tables-Once}
use hermes_life_bridge.Contact.Answers.{keep_receipt-Once, prepare_existing-Once}
use hermes_life_bridge.Contact.Ready.{IsReady, prepare_existing-IsReady}
use hermes_life_bridge.Contact.AtMostOnce.{with_time, with_stage, begin_and_send-Once}

module _ (calendar : Calendar) (digest_head : String → ℕ) (rep : Representation)
    (host : ContactHost) (config : ContactConfig) (probe : EvidenceProbe) where
  open rep use {sanitize}
  open host use {sha256, platform_of}

  -- What was prepared from an operation whose counter is the stored one is answered or sent.
  send_or_answer-Once :
      (p : Prepared) (op : BridgeOperation) (intent : ContactIntentEnvelope) (now target : String)
      (w w' : ContactWorld)
      → Once w'
      → tried op.operation_id w.stores.operations ≡ op.attempt
      → ((op' : BridgeOperation) → p ≡ ready op' → IsReady op op' w w')
      → Once (send_or_answer calendar digest_head rep host config probe p intent now target w').1
  send_or_answer-Once (answered r) op intent now target w w' o counted h = o
  send_or_answer-Once (ready op') op intent now target w w' o counted h =
      let (same, untried, still) = h op' refl in
      begin_and_send-Once calendar digest_head rep host config probe op' intent now target w' o (
        subst (λ (v : ContactWorld). tried op'.operation_id v.stores.operations ≡ 0) (sym still)
          (subst (λ (b : BridgeOperation). tried b.operation_id w.stores.operations ≡ 0) (sym same)
            (counted ∙ untried)))

  prepared-Once :
      (op : BridgeOperation) (intent : ContactIntentEnvelope) (now target : String)
      (w : ContactWorld)
      → Once w
      → tried op.operation_id w.stores.operations ≡ op.attempt
      → Once
          ((prepare_existing calendar digest_head rep host config probe op intent now target
              >>= λ p.
                  send_or_answer calendar digest_head rep host config probe p intent now target)
            w).1
  prepared-Once op intent now target w o counted =
      let m = prepare_existing calendar digest_head rep host config probe op intent now target in
      let after =
        (prepare_existing-Once calendar digest_head rep host config probe op intent now target).from
          w o in
      Preserves-continue Once (m w).0 _ (m w).1 after (λ p e.
        send_or_answer-Once p op intent now target w (m w).1 after counted (λ op' r.
          prepare_existing-IsReady calendar digest_head rep host config probe op intent now target w
            (e ∙ ap ok r)))

  abbrev after_reserve :
      ContactIntentEnvelope
      → String
      → String
      → BridgeOperation × Bool
      → Exec ContactWorld DeliveryReceipt
  after_reserve intent now target reserved =
      prepare_existing calendar digest_head rep host config probe reserved.0 intent now target
      >>= λ p. send_or_answer calendar digest_head rep host config probe p intent now target

  reserved-Once :
      (op : BridgeOperation) (intent : ContactIntentEnvelope) (now target : String)
      → Keeps (in_operations (reserve rep op) >>= after_reserve intent now target)
  reserved-Once op intent now target = record {
    from = λ w o.
        let m = in_operations (reserve rep op) in
        let after =
          (in_operations-Once (reserve rep op) (λ n. reserve-AtLeast rep n op)).from w o in
        Preserves-continue Once (m w).0 (after_reserve intent now target) (m w).1 after
          (λ reserved e.
            prepared-Once reserved.0 intent now target (m w).1 after
              (reserve-Counted rep (λ id. times_sent id w.sent) op w.stores.operations o.least
                (pair_eq e refl)).0);
  }

  deliver_contact-Once :
      (intent : ContactIntentEnvelope) (hash target : String)
      → Keeps (deliver_contact calendar digest_head rep host config probe intent hash target)
  unfolding deliver_contact
  deliver_contact-Once intent hash target =
      with_time calendar digest_head rep host config probe _ (λ now.
        Preserves-bind
          (lift (initial_contact calendar digest_head rep host config probe intent hash now))
          (λ op. in_operations (reserve rep op) >>= after_reserve intent now target)
          (Preserves-lift _) (λ op. reserved-Once op intent now target))

  dry_run-Once :
      (intent : ContactIntentEnvelope) (target : String)
      → Keeps (dry_run calendar digest_head rep host config probe intent target)
  unfolding dry_run
  dry_run-Once intent target = with_time calendar digest_head rep host config probe _ (λ time.
      let receipt = dry_receipt calendar digest_head rep host config probe intent target time in
      keep_receipt-Once calendar digest_head rep host config probe receipt _ (
        with_stage calendar digest_head rep host config probe "CONTACT_DRY_RUN" _
          (Preserves-pure receipt)))

  answer_cached-Once :
      (cached : Option DeliveryReceipt) (intent : ContactIntentEnvelope)
      (decision : ContactDecisionEnvelope) (target : String)
      → Keeps
          (answer_cached calendar digest_head rep host config probe cached intent decision target)
  answer_cached-Once (some r) intent decision target =
      with_stage calendar digest_head rep host config probe "CONTACT_DEDUPE_HIT" _
        (Preserves-pure _)
  answer_cached-Once none intent decision target =
      let hash = request_hash calendar sanitize host config intent decision target in
      let m =
        reserve_request sanitize platform_of sha256 intent.idempotency_key hash
          (raw_metadata calendar sanitize host config intent target) intent.created_at in
      Preserves-bind (in_tables m) _ (in_tables-Once m) (λ _.
        Preserves-if config.contact_delivery_enabled _ _
          (λ _. deliver_contact-Once intent hash target) (λ _. dry_run-Once intent target))

  pub process-Once :
      (intent : ContactIntentEnvelope) (decision : ContactDecisionEnvelope)
      → Keeps (process calendar digest_head rep host config probe intent decision)
  unfolding process
  process-Once intent decision =
      Preserves-bind (current_instant calendar host) _
        (record { from = λ w o. record { least = o.least; single = o.single } })
        (λ now.
          Preserves-bind (find_target calendar digest_head rep host config probe intent now) _
            (record { from = λ w o. o })
            (λ chosen.
              with_stage calendar digest_head rep host config probe "CONTACT_REQUEST_RECEIVED" _ (
                Preserves-bind (current_instant calendar host) _
                  (record { from = λ w o. record { least = o.least; single = o.single } })
                  (λ now'.
                    Preserves-bind
                      (lift (validate calendar sanitize host config intent decision now')) _
                      (Preserves-lift _)
                      (λ _.
                        Preserves-bind
                          (in_tables (reads (λ t. ok (get_receipt intent.idempotency_key t)))) _
                          (in_tables-Once (reads (λ t. ok (get_receipt intent.idempotency_key t))))
                          (λ cached. answer_cached-Once cached intent decision chosen.target))))))
