-- ===== src/Store/Reserve.antt =====
-- The methods that add operations: `_validate_initial`, `reserve`, `reserve_percept`.
use mathlib.Core.Option
use hermes_life_bridge.Prelude.{
  Bool, true, false, not, ◌&&◌, Option, none, some, ◌∷◌, String, ◌==◌, eqb, is_exact_route,
}
use hermes_life_bridge.Errors.{
  Result, ok, err, value_error, operation_conflict, corruption, integrity_error, raise_if, ◌>>=◌,
  ◌>>◌,
}
use hermes_life_bridge.Exec.{Exec, transaction}
use hermes_life_bridge.Contract.{
  prepared, completed, percept, contact, DeliveryOutcome, not_attempted, BridgeOperation,
  same_state, same_kind,
}
use hermes_life_bridge.Store.Table.{
  EventValue, text, PerceptEvent, OutboxRow, Database, find_id, find_key, find_outbox, is_some,
  insert_operation, row_to_operation,
}
use hermes_life_bridge.Store.Outbox.{Representation, canonical_percept_event, field_value}

abbrev is_tried : Option DeliveryOutcome → Bool
is_tried none = false
is_tried (some not_attempted) = false
is_tried (some _) = true

-- `event["idempotency_key"] != operation.idempotency_key`
abbrev differs_from : String → Option EventValue → Bool
differs_from key (some (text s)) = not (s == key)
differs_from key _ = true

module _ (rep : Representation) where
  open rep use {sanitize}

  -- `_validate_initial`
  unfoldable pub validate_initial : BridgeOperation → Result (Unit {0})
  validate_initial op = do
    raise_if (not (sanitize op.operation_id == op.operation_id))
        (value_error "operation_id_must_be_canonical")
    raise_if (not (sanitize op.idempotency_key == op.idempotency_key))
        (value_error "idempotency_key_must_be_canonical")
    raise_if (is_exact_route op.operation_id) (value_error "operation_id_must_not_be_exact_route")
    raise_if (is_exact_route op.idempotency_key)
        (value_error "idempotency_key_must_not_be_exact_route")
    raise_if (not (same_state op.state prepared)) (value_error "initial_operation_must_be_prepared")
    raise_if (not (eqb op.attempt 0)) (value_error "initial_operation_attempt_must_be_zero")
    raise_if (is_some op.next_attempt_at) (value_error "initial_operation_cannot_schedule_retry")
    raise_if (is_some op.last_error_code) (value_error "initial_operation_cannot_have_error")
    raise_if (same_kind op.kind contact && is_tried op.delivery_outcome)
        (value_error "initial_contact_outcome_must_be_not_attempted")

  -- `_operation_values`: the columns hold the redacted texts. Enumeration values stay as they are.
  unfoldable pub operation_values : BridgeOperation → BridgeOperation
  operation_values op = record op {
    operation_id = sanitize op.operation_id;
    idempotency_key = sanitize op.idempotency_key;
    request_hash = sanitize op.request_hash;
    created_at = sanitize op.created_at;
    updated_at = sanitize op.updated_at;
    next_attempt_at = Option.map sanitize op.next_attempt_at;
    last_error_code = Option.map sanitize op.last_error_code;
    schema_version = sanitize op.schema_version;
  }

  -- The row with the operation's kind and key is there.
  abbrev pub reuse :
      BridgeOperation → BridgeOperation → Database → Result ((BridgeOperation × Bool) × Database)
  reuse op row db = do
    existing ← row_to_operation row
    raise_if (not (existing.request_hash == op.request_hash))
        (operation_conflict "idempotency_key_reused_with_different_request")
    ok ((existing, false), db)

  -- It is not: the operation's row is inserted.
  abbrev pub insert_new : BridgeOperation → Database → Result Database
  insert_new op db = do
    raise_if (is_some (find_id op.operation_id db.operations))
        (operation_conflict "operation_id_reused")
    rows ← insert_operation (operation_values op) db.operations
    ok (record db { operations = rows })

  abbrev pub reserve_at :
      Option BridgeOperation
      → BridgeOperation
      → Database
      → Result ((BridgeOperation × Bool) × Database)
  reserve_at (some row) op db = reuse op row db
  reserve_at none op db = do db' ← insert_new op db; ok ((op, true), db')

  unfoldable pub reserve_body :
      BridgeOperation → Database → Result ((BridgeOperation × Bool) × Database)
  reserve_body op db = reserve_at (find_key op.kind op.idempotency_key db.operations) op db

  abbrev pub after_checks : {A : Type 0} → Result (Unit {0}) → Exec Database A → Exec Database A
  after_checks (ok _) m db = m db
  after_checks (err e) m db = (err e, db)

  -- `reserve`
  unfoldable pub reserve : BridgeOperation → Exec Database (BridgeOperation × Bool)
  unfolding reserve_body
  reserve op = after_checks (validate_initial op) (transaction (reserve_body op))

  abbrev pub check_outbox : BridgeOperation → Database → Result (Unit {0})
  check_outbox existing db =
      raise_if
        (not (same_state existing.state completed)
          && not (is_some (find_outbox existing.operation_id db.outbox)))
        (corruption "percept_outbox_payload_missing")

  abbrev pub reserve_percept_at :
      Option BridgeOperation
      → BridgeOperation
      → PerceptEvent
      → Database
      → Result ((BridgeOperation × Bool) × Database)
  reserve_percept_at (some row) op event db = do
    found ← reuse op row db
    check_outbox (found.0).0 db
    ok found
  reserve_percept_at none op event db = do
    db' ← insert_new op db
    raise_if (is_some (find_outbox op.operation_id db.outbox)) integrity_error
    let entry : OutboxRow = record {
      operation_id = op.operation_id;
      event = event;
      created_at = op.created_at;
    }
    ok ((op, true), record db' { outbox = entry ∷ db'.outbox })

  unfoldable pub reserve_percept_body :
      BridgeOperation → PerceptEvent → Database → Result ((BridgeOperation × Bool) × Database)
  reserve_percept_body op event db =
      reserve_percept_at (find_key op.kind op.idempotency_key db.operations) op event db

  unfoldable pub check_percept : BridgeOperation → PerceptEvent → Result PerceptEvent
  check_percept op event = do
    validate_initial op
    raise_if (not (same_kind op.kind percept))
        (value_error "reserve_percept_requires_percept_operation")
    safe ← canonical_percept_event rep event
    raise_if (differs_from op.idempotency_key (field_value "idempotency_key" safe))
        (value_error "percept_outbox_idempotency_mismatch")
    ok safe

  abbrev pub with_event :
      {A : Type 0} → Result PerceptEvent → (PerceptEvent → Exec Database A) → Exec Database A
  with_event (ok event) m db = m event db
  with_event (err e) m db = (err e, db)

  -- `reserve_percept`
  unfoldable pub reserve_percept :
      BridgeOperation → PerceptEvent → Exec Database (BridgeOperation × Bool)
  unfolding reserve_percept_body
  reserve_percept op event =
      with_event (check_percept op event) (λ safe. transaction (reserve_percept_body op safe))
