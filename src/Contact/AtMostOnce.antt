-- ===== src/Contact/AtMostOnce.antt =====
-- A contact is handed to the sender at most once, whatever happens around it.
use hermes_life_bridge.Prelude.{
  ℕ, ◌+◌, ◌≤◌, ◌≡◌, refl, sym, subst, inl, inr, Bool-cases, none, some, ◌∷◌, String, ◌==◌, eq_iff,
  arith,
}
use hermes_life_bridge.Exec.{Exec, ◌>>=◌, ◌>>◌, skip_conflict, pair_eq}
use hermes_life_bridge.Exec.Preserves.{
  Preserves-pure, Preserves-bind, Preserves-skip_conflict, Preserves-continue,
}
use hermes_life_bridge.Calendar.{Calendar}
use hermes_life_bridge.Contract.{BridgeOperation}
use hermes_life_bridge.Store.{
  Representation, call, completing, failing, losing, mark_completed, mark_failed_safe,
  mark_delivery_unknown, tried, call-AtLeast,
}
use hermes_life_bridge.Retry.{
  default_retry_policies, begin_attempt, begin_attempt-AtLeast, begin_attempt_first,
}
use hermes_life_bridge.Contact.Reconciler.{EvidenceProbe}
use hermes_life_bridge.Contact.Sending.{SendOutcome}
use hermes_life_bridge.Contact.Setting.{
  ContactIntentEnvelope, ContactConfig, ContactWorld, ContactHost, in_operations, emit,
  current_time, hand_over,
}
use hermes_life_bridge.Contact.Process.{
  delivered_receipt, settle_accepted, settle_failed_safe, settle_unknown, settle_outcome,
  send_started, begin_and_send,
}
use hermes_life_bridge.Contact.Kept.{
  times_sent, Once, Keeps, in_operations-Once, emit-Once, current_time-Once,
}
use hermes_life_bridge.Contact.Answers.{
  keep_receipt-Once, defer_or_exhaust-Once, handle_unknown-Once,
}

module _ (calendar : Calendar) (digest_head : String → ℕ) (rep : Representation)
    (host : ContactHost) (config : ContactConfig) (probe : EvidenceProbe) where
  -- The clock is read, then the rest.
  pub with_time :
      {A : Type 0} (k : String → Exec ContactWorld A)
      → ((time : String) → Keeps (k time))
      → Keeps (current_time calendar host >>= k)
  with_time k h = Preserves-bind (current_time calendar host) k (current_time-Once calendar host) h

  pub with_stage :
      {A : Type 0} (stage : String) (m : Exec ContactWorld A) → Keeps m → Keeps (emit stage >> m)
  with_stage stage m h = Preserves-bind (emit stage) (λ _. m) (emit-Once stage) (λ _. h)

  settle_accepted-Once :
      (started : BridgeOperation) (intent : ContactIntentEnvelope) (target id : String)
      → Keeps (settle_accepted calendar digest_head rep host config probe started intent target id)
  unfolding settle_accepted call
  settle_accepted-Once started intent target id = with_time _ (λ delivered_at.
      let receipt =
        delivered_receipt calendar digest_head rep host config probe intent target id
          delivered_at in
      keep_receipt-Once calendar digest_head rep host config probe receipt _ (
        with_time _ (λ time.
          Preserves-bind (skip_conflict (in_operations (mark_completed started.operation_id time)))
            _
            (Preserves-skip_conflict _
              (in_operations-Once _ (λ n. call-AtLeast n completing started.operation_id time)))
            (λ _.
              with_stage "HERMES_SEND_SUCCESS" _
                (with_stage "DELIVERY_RECEIPT_SENT" _ (Preserves-pure receipt))))))

  settle_failed_safe-Once :
      (started : BridgeOperation)
      → Keeps (settle_failed_safe calendar digest_head rep host config probe started)
  unfolding settle_failed_safe call
  settle_failed_safe-Once started = with_time _ (λ time.
      let code = some "hermes_send_failed_safe" in
      Preserves-bind (in_operations (mark_failed_safe started.operation_id time code)) _
        (in_operations-Once _ (λ n. call-AtLeast n (failing code) started.operation_id time))
        (λ failed. with_stage "CONTACT_FAILED_SAFE" _ (
          with_stage "CONTACT_FAILED" _ (
            with_time _
              (λ _. defer_or_exhaust-Once calendar digest_head rep host config probe failed)))))

  settle_unknown-Once :
      (started : BridgeOperation) (intent : ContactIntentEnvelope) (target code : String)
      → Keeps (settle_unknown calendar digest_head rep host config probe started intent target code)
  unfolding settle_unknown call
  settle_unknown-Once started intent target code = with_time _ (λ time.
      Preserves-bind (in_operations (mark_delivery_unknown started.operation_id time (some code))) _
        (in_operations-Once _ (λ n. call-AtLeast n (losing (some code)) started.operation_id time))
        (λ lost. with_stage "CONTACT_DELIVERY_UNKNOWN" _ (
          with_stage "CONTACT_FAILED" _ (
            with_time _ (λ time'.
              handle_unknown-Once calendar digest_head rep host config probe lost intent time'
                target)))))

  settle_outcome-Once :
      (o : SendOutcome) (started : BridgeOperation) (intent : ContactIntentEnvelope)
      (target : String)
      → Keeps (settle_outcome calendar digest_head rep host config probe o started intent target)
  settle_outcome-Once (SendOutcome.accepted id) started intent target =
      settle_accepted-Once started intent target id
  settle_outcome-Once (SendOutcome.failed_safe e) started intent target =
      settle_failed_safe-Once started
  settle_outcome-Once (SendOutcome.outcome_unknown e) started intent target =
      settle_unknown-Once started intent target "hermes_send_outcome_unknown"
  settle_outcome-Once (SendOutcome.other_exception e) started intent target =
      settle_unknown-Once started intent target "sender_exception_outcome_unknown"

  -- An operation with one attempt for which nothing was sent may be sent.
  hand_over-Once :
      (id target message : String) (w : ContactWorld)
      → Once w
      → times_sent id w.sent ≡ 0
      → tried id w.stores.operations ≡ 1
      → Once (hand_over calendar host id target message w).1
  unfolding times_sent
  hand_over-Once id target message w o unsent begun = record {
    least = record {
      ids = o.least.ids;
      reached = λ j. elim (Bool-cases (id == j)) [
        | inl here ↦ rw here (
            subst (λ i. 1 + times_sent i w.sent ≤ tried i w.stores.operations)
              ((eq_iff id j).0 here) (omega arith))
        | inr there ↦ rw there (omega (arith, o.least.reached j))
      ];
    };
    single = λ j. elim (Bool-cases (id == j)) [
      | inl here ↦
          rw here (subst (λ i. 1 + times_sent i w.sent ≤ 1) ((eq_iff id j).0 here) (omega arith))
      | inr there ↦ rw there (omega (arith, o.single j))
    ];
  }

  send_started-Once :
      (started : BridgeOperation) (intent : ContactIntentEnvelope) (target : String)
      (w : ContactWorld)
      → Once w
      → times_sent started.operation_id w.sent ≡ 0
      → tried started.operation_id w.stores.operations ≡ 1
      → Once (send_started calendar digest_head rep host config probe started intent target w).1
  unfolding send_started
  send_started-Once started intent target w o unsent begun =
      let traced = record w { traced = "HERMES_SEND_START" ∷ w.traced } in
      let o' : Once traced = record { least = o.least; single = o.single } in
      (settle_outcome-Once _ started intent target).from _
        (hand_over-Once started.operation_id target intent.message_text traced o' unsent begun)

  -- An operation that was never tried is begun and sent.
  pub begin_and_send-Once :
      (op : BridgeOperation) (intent : ContactIntentEnvelope) (now target : String)
      (w : ContactWorld)
      → Once w
      → tried op.operation_id w.stores.operations ≡ 0
      → Once (begin_and_send calendar digest_head rep host config probe op intent now target w).1
  unfolding begin_and_send
  begin_and_send-Once op intent now target w o untried =
      let begin =
        begin_attempt calendar digest_head default_retry_policies op.operation_id now none in
      let kept = in_operations-Once begin (λ n.
        begin_attempt-AtLeast calendar digest_head default_retry_policies n op.operation_id now
          none) in
      Preserves-continue Once (begin w.stores.operations).0 _ (in_operations begin w).1
        (kept.from w o)
        (λ begun e.
          let (same, one) =
            begin_attempt_first calendar digest_head default_retry_policies
              (λ id. times_sent id w.sent) op.operation_id now none w.stores.operations o.least
              untried (pair_eq e refl) in
          let unsent : times_sent op.operation_id w.sent ≡ 0 =
            omega (arith, o.least.reached op.operation_id, untried) in
          send_started-Once begun.operation intent target (in_operations begin w).1 (kept.from w o)
            (subst (λ i. times_sent i w.sent ≡ 0) (sym same) unsent)
            (subst (λ i. tried i (begin w.stores.operations).1 ≡ 1) (sym same) one))
