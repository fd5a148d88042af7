-- ===== src/Contact/Tables.antt =====
-- ContactStore: its receipts, and the evidence that was saved.
use hermes_life_bridge.Prelude.{
  Bool, true, not, ◌&&◌, Option, none, some, List, ◌∷◌, String, ◌==◌, ltb, first, length, codes,
  is_safe_token,
}
use hermes_life_bridge.Errors.{Result, ok, value_error, raise_if, ◌>>◌}
use hermes_life_bridge.Exec.{Exec, transaction}
use hermes_life_bridge.Contact.Evidence.{
  ContactEvidenceOutcome, was_delivered, still_unknown, same_outcome,
}

pub record DeliveryReceipt : Type 0 where
  pub receipt_id : String
  pub intent_id : String
  pub idempotency_key : String
  pub life_did : String
  pub target : String
  pub status : String
  pub message_hash : String
  pub provider_message_id : String
  pub delivered_at : String
  pub duplicate : Bool
  pub error : String
  pub schema_version : String

-- A row of `reconciliations`. Its CHECK leaves out `still_unknown`.
pub record Reconciliation : Type 0 where
  pub idempotency_key : String
  pub outcome : ContactEvidenceOutcome
  pub source : String
  pub provider_message_id : String
  pub observed_at : String

-- The metadata of a request, after redaction.
pub record RequestMetadata : Type 0 where
  pub intent_id : String
  pub message_hash : String
  pub work_event_id : Option String
  pub target_platform : Option String
  pub target_hash : Option String

pub record RequestRow : Type 0 where
  pub idempotency_key : String
  pub request_hash : String
  pub metadata : RequestMetadata
  pub created_at : String

-- A row of `receipts`: its key, and the receipt and the target's hash that its JSON holds.
pub record ReceiptRow : Type 0 where
  pub idempotency_key : String
  pub receipt : DeliveryReceipt
  pub target_hash : Option String

-- The three tables, the latest row first; stored JSON reads back as it was written.
pub record ContactTables : Type 0 where
  pub requests : List RequestRow
  pub receipts : List ReceiptRow
  pub reconciliations : List Reconciliation

abbrev pub with_duplicate : Option ReceiptRow → Option DeliveryReceipt
with_duplicate none = none
with_duplicate (some r) = some (record r.receipt { duplicate = true })

-- `get_receipt`
unfoldable pub get_receipt : String → ContactTables → Option DeliveryReceipt
unfolding first
get_receipt key t = with_duplicate (first (λ (r : ReceiptRow). r.idempotency_key == key) t.receipts)

-- `get_reconciliation`
unfoldable pub get_reconciliation : String → ContactTables → Option Reconciliation
unfolding first
get_reconciliation key t =
    first (λ (r : Reconciliation). r.idempotency_key == key) t.reconciliations

-- The row of the key is there, or is added.
abbrev store_reconciliation :
    Option Reconciliation → Reconciliation → ContactTables → Result (Unit {0} × ContactTables)
store_reconciliation none r t = ok (tt, record t { reconciliations = r ∷ t.reconciliations })
store_reconciliation (some old) r t = do
  raise_if
      (not (
        same_outcome old.outcome r.outcome
        && old.source == r.source
        && old.provider_message_id == r.provider_message_id))
      (value_error "contact_reconciliation_conflict")
  ok (tt, t)

-- The checks of `save_reconciliation`; `sanitize` is the redaction of operational texts.
unfoldable pub check_reconciliation : (String → String) → Reconciliation → Result (Unit {0})
unfolding same_outcome
check_reconciliation sanitize r = do
  raise_if (same_outcome r.outcome still_unknown)
      (value_error "invalid_contact_reconciliation_outcome")
  raise_if (not (is_safe_token r.source)) (value_error "invalid_contact_reconciliation_source")
  raise_if (ltb 512 (length (codes r.provider_message_id)))
      (value_error "provider_message_id_too_long")
  raise_if (not (sanitize r.provider_message_id == r.provider_message_id))
      (value_error "provider_message_id_must_be_canonical")
  raise_if (same_outcome r.outcome was_delivered && r.provider_message_id == "")
      (value_error "delivered_reconciliation_requires_provider_message_id")
  raise_if (not (same_outcome r.outcome was_delivered) && not (r.provider_message_id == ""))
      (value_error "provider_message_id_only_valid_for_delivered_reconciliation")

-- `save_reconciliation`
unfoldable pub save_reconciliation :
    (String → String) → Reconciliation → Exec ContactTables (Unit {0})
unfolding transaction check_reconciliation get_reconciliation same_outcome
save_reconciliation sanitize r = transaction (λ t.
    check_reconciliation sanitize r
    >> store_reconciliation (get_reconciliation r.idempotency_key t) r t)
