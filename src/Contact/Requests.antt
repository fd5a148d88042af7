-- ===== src/Contact/Requests.antt =====
-- ContactStore: its requests, and the redaction of what it stores.
use mathlib.Core.Option
use hermes_life_bridge.Prelude.{
  ℕ, Bool, false, not, ◌&&◌, ◌||◌, Option, none, some, List, [], ◌∷◌, String, ◌==◌, leb, eqb,
  if◌then◌else◌, length, codes, every, is_digit, is_letter, first, select, order_by, take, text_lt,
}
use hermes_life_bridge.Errors.{Result, ok, err, value_error}
use hermes_life_bridge.Exec.{Exec, transaction}
use hermes_life_bridge.Contact.Tables.{
  DeliveryReceipt, RequestMetadata, RequestRow, ReceiptRow, ContactTables,
}

-- The metadata that a caller passes: the target is still in it.
pub record RawMetadata : Type 0 where
  pub intent_id : String
  pub target : String
  pub message_hash : String
  pub work_event_id : Option String

abbrev is_token_char : ℕ → Bool
is_token_char c = is_letter c || is_digit c || eqb c b'_' || eqb c b'.' || eqb c b':' || eqb c b'-'

starts_alphanumeric : List ℕ → Bool
starts_alphanumeric [] = false
starts_alphanumeric (c ∷ cs) = is_letter c || is_digit c

-- `re.fullmatch(r"[A-Za-z0-9][A-Za-z0-9_.:-]{0,255}", s)`
unfoldable pub is_event_token : String → Bool
unfolding codes every starts_alphanumeric
is_event_token s =
    starts_alphanumeric (codes s) && leb (length (codes s)) 256 && every is_token_char (codes s)

abbrev pub find_request : String → List RequestRow → Option RequestRow
find_request key rows = first (λ (r : RequestRow). r.idempotency_key == key) rows

abbrev pub find_receipt : String → List ReceiptRow → Option ReceiptRow
find_receipt key rows = first (λ (r : ReceiptRow). r.idempotency_key == key) rows

-- `sanitize` is `sanitize_operational_string` and `platform_of` is `canonical_platform`.
module _ (sanitize platform_of sha256 : String → String) where
  -- `_target_platform`
  abbrev pub target_platform : String → String
  target_platform target = if platform_of target == "" then "unknown" else platform_of target

  -- `_redact_request_metadata`
  unfoldable pub redact_request_metadata : RawMetadata → RequestMetadata
  redact_request_metadata m =
      let target = sanitize m.target in
      record {
        intent_id = sanitize m.intent_id;
        message_hash = sanitize m.message_hash;
        work_event_id = Option.map sanitize m.work_event_id;
        target_platform = if target == "" then none else some (target_platform target);
        target_hash = if target == "" then none else some (sha256 target);
      }

  -- `_redact_receipt_dict`: the receipt that is stored, and the hash beside it.
  unfoldable pub redact_receipt : DeliveryReceipt → DeliveryReceipt
  redact_receipt r =
      let target = sanitize r.target in
      record {
        receipt_id = sanitize r.receipt_id;
        intent_id = sanitize r.intent_id;
        idempotency_key = sanitize r.idempotency_key;
        life_did = sanitize r.life_did;
        target = if target == "" then target else target_platform target;
        status = sanitize r.status;
        message_hash = sanitize r.message_hash;
        provider_message_id = sanitize r.provider_message_id;
        delivered_at = sanitize r.delivered_at;
        duplicate = r.duplicate;
        error = sanitize r.error;
        schema_version = sanitize r.schema_version;
      }

  abbrev pub receipt_row : DeliveryReceipt → ReceiptRow
  receipt_row r =
      let target = sanitize r.target in
      record {
        idempotency_key = r.idempotency_key;
        receipt = redact_receipt r;
        target_hash = if target == "" then none else some (sha256 target);
      }

  abbrev reserve_request_at :
      Option RequestRow → RequestRow → ContactTables → Result (Unit {0} × ContactTables)
  reserve_request_at none row t = ok (tt, record t { requests = row ∷ t.requests })
  reserve_request_at (some old) row t =
      if old.request_hash == row.request_hash
      then ok (tt, t)
      else err (value_error "contact_idempotency_conflict")

  -- `reserve`
  unfoldable pub reserve_request :
      String → String → RawMetadata → String → Exec ContactTables (Unit {0})
  unfolding transaction redact_request_metadata
  reserve_request key hash metadata created_at = transaction (λ t.
      reserve_request_at (find_request key t.requests)
        (record {
          idempotency_key = key;
          request_hash = hash;
          metadata = redact_request_metadata metadata;
          created_at = created_at;
        })
        t)

  -- `save_receipt`: INSERT OR REPLACE
  unfoldable pub save_receipt : DeliveryReceipt → Exec ContactTables (Unit {0})
  unfolding select
  save_receipt r t = (
    ok tt,
    record t {
      receipts =
          receipt_row r
          ∷ select (λ (old : ReceiptRow). not (old.idempotency_key == r.idempotency_key))
              t.receipts;
    },
  )

  -- SELECT ... FROM requests q JOIN receipts r ON r.idempotency_key = q.idempotency_key
  unfoldable pub join_receipts : List RequestRow → List ReceiptRow → List (RequestRow × ReceiptRow)
  join_receipts [] receipts = []
  join_receipts (q ∷ qs) receipts =
      let rest = join_receipts qs receipts in
      elim (find_receipt q.idempotency_key receipts) [ none ↦ rest | some r ↦ (q, r) ∷ rest ]

  abbrev pub newer_request : RequestRow → RequestRow → Bool
  newer_request a b = text_lt b.created_at a.created_at

  -- The newest hundred; rows are listed by falling rowid, and the ordering is stable.
  unfoldable pub newest_contacts : ContactTables → List (RequestRow × ReceiptRow)
  unfolding order_by join_receipts
  newest_contacts t = take 100 (join_receipts (order_by newer_request t.requests) t.receipts)

  -- Whether a row is an actual delivery to the target with this hash.
  abbrev pub is_delivery_to : String → RequestRow × ReceiptRow → Bool
  is_delivery_to hash (q, r) =
      elim q.metadata.target_hash [ none ↦ false | some h ↦ h == hash ]
      && r.receipt.status == "delivered"

  abbrev pub approved_event : Option String → Option String
  approved_event none = none
  approved_event (some id) = if is_event_token id then some id else none

  -- The loop of `latest_delivered_work_event_for_target`.
  unfoldable pub latest_among : String → List (RequestRow × ReceiptRow) → Option String
  latest_among hash [] = none
  latest_among hash (row ∷ rows) =
      let rest = latest_among hash rows in
      if is_delivery_to hash row then approved_event row.0.metadata.work_event_id else rest

  -- `latest_delivered_work_event_for_target`
  unfoldable pub latest_delivered_work_event_for_target : String → ContactTables → Option String
  unfolding latest_among newest_contacts
  latest_delivered_work_event_for_target target t = latest_among (sha256 target) (newest_contacts t)
