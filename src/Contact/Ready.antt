-- ===== src/Contact/Ready.antt =====
-- When ContactService finds an operation ready to be sent.
use hermes_life_bridge.Prelude.{
  ℕ, ◌≡◌, ◌≢◌, refl, Bool, true, false, not, String, arith, ltb, if◌then◌else◌,
}
use hermes_life_bridge.Errors.{Fault, Result, ok, err, state_conflict}
use hermes_life_bridge.Exec.{pure, raise, continue}
use hermes_life_bridge.Calendar.{Calendar}
use hermes_life_bridge.Contract.{
  OperationState, prepared, in_flight, retry_wait, completed, failed_safe, delivery_unknown,
  exhausted, BridgeOperation, same_state,
}
use hermes_life_bridge.Store.{Representation}
use hermes_life_bridge.Contact.Tables.{DeliveryReceipt, get_reconciliation}
use hermes_life_bridge.Contact.Reconciler.{EvidenceProbe}
use hermes_life_bridge.Contact.Setting.{
  ContactIntentEnvelope, ContactConfig, ContactWorld, ContactHost,
}
use hermes_life_bridge.Contact.Service.{
  answered, ready, fresh_decision_required, defer_or_exhaust, handle_unknown, answer_stored,
  prepare_by_state, prepare_existing,
}

answers :
    (r : Result DeliveryReceipt) (w : ContactWorld) {op : BridgeOperation}
    → (continue r (λ receipt. pure (answered receipt)) w).0 ≢ ok (ready op)
answers (ok receipt) w h = cc
answers (err e) w h = cc

raises :
    {A : Type 0} (b : Bool) (e e' : Fault) (w : ContactWorld) {a : A}
    → ((if b then raise e else raise e') w).0 ≢ ok a
raises true e e' w h = cc
raises false e e' w h = cc

-- `op'` is `op`, which was never tried, and the state is the one before.
abbrev pub IsReady : BridgeOperation → BridgeOperation → ContactWorld → ContactWorld → Type 0
IsReady op op' w w' = (op' ≡ op) × (op.attempt ≡ 0) × (w' ≡ w)

prepared-IsReady :
    (op : BridgeOperation) (w : ContactWorld) (b : Bool) {op' : BridgeOperation}
    → ltb 0 op.attempt ≡ b
    → ((if b then raise fresh_decision_required else pure (ready op)) w).0 ≡ ok (ready op')
    → IsReady op op' w ((if b then raise fresh_decision_required else pure (ready op)) w).1
prepared-IsReady op w true e h = absurd cc
prepared-IsReady op w false e h = (cc, ground arith, refl)

module _ (calendar : Calendar) (digest_head : String → ℕ) (rep : Representation)
    (host : ContactHost) (config : ContactConfig) (probe : EvidenceProbe) (op : BridgeOperation)
    (intent : ContactIntentEnvelope) (now target : String) (w : ContactWorld) where
  by_state-IsReady :
      (s : OperationState) {op' : BridgeOperation}
      → (prepare_by_state calendar digest_head rep host config probe s op intent now target w).0
        ≡ ok (ready op')
      → IsReady op op' w
          (prepare_by_state calendar digest_head rep host config probe s op intent now target w).1
  unfolding defer_or_exhaust
  by_state-IsReady prepared h = prepared-IsReady op w (ltb 0 op.attempt) refl h
  by_state-IsReady completed h = absurd (
      answers
        (answer_stored calendar digest_head rep host config probe
          (get_reconciliation op.idempotency_key w.stores.contacts) intent target w).0
        _ h)
  by_state-IsReady delivery_unknown h = absurd (
      answers (handle_unknown calendar digest_head rep host config probe op intent now target w).0 _
        h)
  by_state-IsReady failed_safe h = absurd (
      raises (not (same_state op.state failed_safe)) (state_conflict "defer_requires_failed_safe")
        fresh_decision_required w h)
  by_state-IsReady in_flight h = absurd cc
  by_state-IsReady exhausted h = absurd cc
  by_state-IsReady retry_wait h = absurd cc

  -- What `_prepare_existing` returns to be sent is the stored operation itself, which was never
  -- tried, and nothing was done.
  pub prepare_existing-IsReady :
      {op' : BridgeOperation}
      → (prepare_existing calendar digest_head rep host config probe op intent now target w).0
        ≡ ok (ready op')
      → IsReady op op' w
          (prepare_existing calendar digest_head rep host config probe op intent now target w).1
  unfolding prepare_existing
  prepare_existing-IsReady h = by_state-IsReady op.state h
