-- ===== src/Contact/Reconciler.antt =====
-- ContactReconciler: a lost outcome is settled from evidence only.
use Prim.Native.String.{◌++◌ as append}
use hermes_life_bridge.Prelude.{Bool, true, false, Option, none, some, String, ◌==◌, if◌then◌else◌}
use hermes_life_bridge.Errors.{Result, ok, err, key_error}
use hermes_life_bridge.Exec.{Exec, pure, lift, reads, ◌>>=◌, ◌>>◌}
use hermes_life_bridge.Contract.{BridgeOperation}
use hermes_life_bridge.Store.{Database, get, mark_completed, mark_failed_safe}
use hermes_life_bridge.Contact.Evidence.{
  ContactEvidenceOutcome, was_delivered, not_delivered, still_unknown, ContactEvidence,
  evidence_init, check_lost,
}
use hermes_life_bridge.Contact.Tables.{
  DeliveryReceipt, Reconciliation, ContactTables, get_receipt, get_reconciliation,
  save_reconciliation,
}

-- The two stores of the reconciler.
pub record Stores : Type 0 where
  pub operations : Database
  pub contacts : ContactTables

pub record ContactReconciliationResult : Type 0 where
  pub operation : BridgeOperation
  pub evidence : ContactEvidence
  pub changed : Bool

abbrev pub on_operations : {A : Type 0} → Exec Database A → Exec Stores A
on_operations m s = ((m s.operations).0, record s { operations = (m s.operations).1 })

abbrev pub on_contacts : {A : Type 0} → Exec ContactTables A → Exec Stores A
on_contacts m s = ((m s.contacts).0, record s { contacts = (m s.contacts).1 })

abbrev provider_id : DeliveryReceipt → String
provider_id r =
    if r.provider_message_id == ""
    then append "hlb-receipt:" r.receipt_id
    else r.provider_message_id

abbrev some_evidence : Result ContactEvidence → Result (Option ContactEvidence)
some_evidence (ok e) = ok (some e)
some_evidence (err e) = err e

abbrev stored_evidence : Option Reconciliation → Result (Option ContactEvidence)
stored_evidence none = ok none
stored_evidence (some r) = some_evidence (
    evidence_init (record {
      outcome = r.outcome;
      source = r.source;
      provider_message_id = r.provider_message_id;
    }))

-- The evidence of a receipt, or else what was saved.
abbrev pub receipt_evidence :
    Option DeliveryReceipt → Option Reconciliation → Result (Option ContactEvidence)
receipt_evidence none saved = stored_evidence saved
receipt_evidence (some r) saved =
    if r.status == "delivered"
    then some_evidence (
        evidence_init (record {
          outcome = was_delivered;
          source = "contact_store_receipt";
          provider_message_id = provider_id r;
        }))
    else stored_evidence saved

-- `_local_evidence`
unfoldable pub local_evidence : BridgeOperation → ContactTables → Result (Option ContactEvidence)
unfolding get_receipt get_reconciliation evidence_init
local_evidence op t =
    receipt_evidence (get_receipt op.idempotency_key t) (get_reconciliation op.idempotency_key t)

-- `evidence_probe`, a callable that may raise, or None.
abbrev pub EvidenceProbe : Type 0
EvidenceProbe = Option (BridgeOperation → Result ContactEvidence)

abbrev pub require_contact : Option BridgeOperation → Result BridgeOperation
require_contact none = err (key_error "operation_not_found")
require_contact (some op) = ok op

-- `now` is what the clock says when evidence is saved.
module _ (sanitize : String → String) (probe : EvidenceProbe) (now : String) where
  abbrev pub save_evidence : BridgeOperation → ContactEvidence → Exec Stores (Unit {0})
  save_evidence op e = on_contacts (
      save_reconciliation sanitize (record {
        idempotency_key = op.idempotency_key;
        outcome = e.outcome;
        source = e.source;
        provider_message_id = e.provider_message_id;
        observed_at = now;
      }))

  abbrev pub save_unless_unknown :
      ContactEvidenceOutcome → BridgeOperation → ContactEvidence → Exec Stores (Unit {0})
  save_unless_unknown still_unknown op e = pure tt
  save_unless_unknown _ op e = save_evidence op e

  abbrev pub ask_probe : EvidenceProbe → BridgeOperation → Exec Stores ContactEvidence
  ask_probe none op = lift (
      evidence_init (record {
        outcome = still_unknown;
        source = "no_authoritative_probe";
        provider_message_id = "";
      }))
  ask_probe (some ask) op = do e ← lift (ask op); save_unless_unknown e.outcome op e; pure e

  abbrev pub local_or_probe : Option ContactEvidence → BridgeOperation → Exec Stores ContactEvidence
  local_or_probe (some e) op = pure e
  local_or_probe none op = ask_probe probe op

  -- `collect_evidence`
  unfoldable pub collect_evidence : BridgeOperation → Exec Stores ContactEvidence
  unfolding local_evidence save_reconciliation evidence_init check_lost
  collect_evidence op = do
    lift (check_lost op)
    found ← on_contacts (reads (local_evidence op))
    local_or_probe found op

  -- The part of `reconcile` after the evidence.
  abbrev pub settle_by :
      ContactEvidenceOutcome
      → String
      → BridgeOperation
      → ContactEvidence
      → Exec Stores ContactReconciliationResult
  settle_by still_unknown observed_at op e =
      pure (record { operation = op; evidence = e; changed = false })
  settle_by was_delivered observed_at op e = do
    resolved ← on_operations (mark_completed op.operation_id observed_at)
    pure (record { operation = resolved; evidence = e; changed = true })
  settle_by not_delivered observed_at op e = do
    resolved ← on_operations (
        mark_failed_safe op.operation_id observed_at (some "reconciled_authoritative_non_delivery"))
    pure (record { operation = resolved; evidence = e; changed = true })

  -- `reconcile`
  unfoldable pub reconcile : String → String → Exec Stores ContactReconciliationResult
  unfolding collect_evidence
  reconcile id observed_at = do
    found ← on_operations (reads (get id))
    op ← lift (require_contact found)
    e ← collect_evidence op
    settle_by e.outcome observed_at op e
