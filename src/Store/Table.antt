-- ===== src/Store/Table.antt =====
-- The tables with their constraints, the statements on them, and the reading of rows.
use hermes_life_bridge.Prelude.{
  Bool, true, false, not, ◌&&◌, Option, none, some, List, [], ◌∷◌, String, ◌==◌, eqb, if◌then◌else◌,
  codes, length, first, select, order_by, pair_lt,
}
use hermes_life_bridge.Errors.{
  Result, ok, err, corruption, key_error, integrity_error, rethrow, raise_if, ◌>>=◌, ◌>>◌,
}
use hermes_life_bridge.Contract.{
  BridgeOperation, RetryClass, OperationState, retry_wait, same_kind, same_state, post_init,
}

-- A value of a Percept event, as JSON stores it: a text, or a number by its numeral.
pub data EventValue : Type 0 where
  text number : String → EventValue

-- A `dict` of event fields, in order.
abbrev pub PerceptEvent : Type 0
PerceptEvent = List (String × EventValue)

pub record OutboxRow : Type 0 where
  pub operation_id : String
  pub event : PerceptEvent
  pub created_at : String

-- bridge_operations and percept_outbox. The CHECK constraints on `kind`, `state`,
-- `delivery_outcome` and `attempt` are the types of those columns.
pub record Database : Type 0 where
  pub operations : List BridgeOperation
  pub outbox : List OutboxRow

abbrev pub by_id : String → BridgeOperation → Bool
by_id id row = row.operation_id == id

abbrev pub by_key : RetryClass → String → BridgeOperation → Bool
by_key kind key row = same_kind row.kind kind && row.idempotency_key == key

abbrev pub by_outbox_id : String → OutboxRow → Bool
by_outbox_id id row = row.operation_id == id

-- SELECT * FROM bridge_operations WHERE operation_id=?
unfoldable pub find_id : String → List BridgeOperation → Option BridgeOperation
unfolding first
find_id id rows = first (by_id id) rows

-- SELECT * FROM bridge_operations WHERE kind=? AND idempotency_key=?
unfoldable pub find_key : RetryClass → String → List BridgeOperation → Option BridgeOperation
unfolding first
find_key kind key rows = first (by_key kind key) rows

unfoldable pub find_outbox : String → List OutboxRow → Option OutboxRow
unfolding first
find_outbox id rows = first (by_outbox_id id) rows

abbrev pub is_some {ℓ} : {A : Type ℓ} → Option A → Bool
is_some none = false
is_some (some a) = true

-- The table's CHECK constraints on one row.
unfoldable pub meets_checks : BridgeOperation → Bool
unfolding same_state
meets_checks row =
    eqb (length (codes row.request_hash)) 64
    && row.schema_version == "v0.4"
    && (if same_state row.state retry_wait
        then is_some row.next_attempt_at
        else not (is_some row.next_attempt_at))

-- INSERT INTO bridge_operations: the primary key, UNIQUE(kind, idempotency_key) and the checks.
unfoldable pub insert_operation :
    BridgeOperation → List BridgeOperation → Result (List BridgeOperation)
unfolding find_id find_key meets_checks
insert_operation row rows = do
  raise_if (is_some (find_id row.operation_id rows)) integrity_error
  raise_if (is_some (find_key row.kind row.idempotency_key rows)) integrity_error
  raise_if (not (meets_checks row)) integrity_error
  ok (row ∷ rows)

-- `_row_to_operation`
unfoldable pub row_to_operation : BridgeOperation → Result BridgeOperation
row_to_operation row = rethrow (post_init row) (corruption "invalid_bridge_operation_row")

unfoldable pub rows_to_operations : List BridgeOperation → Result (List BridgeOperation)
rows_to_operations [] = ok []
rows_to_operations (row ∷ rows) = do
  op ← row_to_operation row
  ops ← rows_to_operations rows
  ok (op ∷ ops)

abbrev pub read_optional : Option BridgeOperation → Result (Option BridgeOperation)
read_optional none = ok none
read_optional (some row) = do op ← row_to_operation row; ok (some op)

-- `get`
unfoldable pub get : String → Database → Result (Option BridgeOperation)
get id db = read_optional (find_id id db.operations)

-- `get_by_idempotency`
unfoldable pub get_by_idempotency : RetryClass → String → Database → Result (Option BridgeOperation)
get_by_idempotency kind key db = read_optional (find_key kind key db.operations)

-- `column IS the parameter`, where the parameter may be left out
abbrev pub fits_kind : Option RetryClass → RetryClass → Bool
fits_kind none k = true
fits_kind (some k') k = same_kind k k'

abbrev pub fits_state : Option OperationState → OperationState → Bool
fits_state none s = true
fits_state (some s') s = same_state s s'

-- ORDER BY created_at, operation_id
abbrev pub created_before : BridgeOperation → BridgeOperation → Bool
created_before a b = pair_lt a.created_at a.operation_id b.created_at b.operation_id

unfoldable pub list_rows :
    Option RetryClass → Option OperationState → Database → List BridgeOperation
unfolding select order_by same_kind same_state
list_rows kind state db =
    order_by created_before
      (select (λ r. fits_kind kind r.kind && fits_state state r.state) db.operations)

-- `list_operations`
unfoldable pub list_operations :
    Option RetryClass → Option OperationState → Database → Result (List BridgeOperation)
unfolding rows_to_operations
list_operations kind state db = rows_to_operations (list_rows kind state db)

abbrev pub load_row : Option BridgeOperation → Result BridgeOperation
load_row none = err (key_error "operation_not_found")
load_row (some row) = row_to_operation row

-- `_load_for_update`
unfoldable pub load_for_update : String → Database → Result BridgeOperation
load_for_update id db = load_row (find_id id db.operations)
