-- ===== src/Store/Outbox.antt =====
-- The percept outbox: which events it takes, and the methods that read and clear it.
use hermes_life_bridge.Prelude.{
  ℕ, ◌+◌, Bool, true, false, not, ◌&&◌, ◌||◌, Option, none, some, List, [], ◌∷◌, String, ◌==◌, leb,
  if◌then◌else◌, codes, has_prefix, select, order_by, pair_lt,
}
use hermes_life_bridge.Errors.{Result, ok, value_error, corruption, rethrow, raise_if, ◌>>=◌, ◌>>◌}
use hermes_life_bridge.Exec.{Exec}
use hermes_life_bridge.Store.Table.{
  EventValue, text, number, PerceptEvent, OutboxRow, Database, find_outbox,
}

-- representation.py, as far as the store uses it: the redaction of one text. `json.dumps` of an
-- event is the other parameter.
pub record Representation : Type 0 where
  pub sanitize : String → String
  pub dumps : PerceptEvent → String

abbrev lower_ascii : ℕ → ℕ
lower_ascii c = if leb b'A' c && leb c b'Z' then c + 32 else c

abbrev lowered : List ℕ → List ℕ
lowered [] = []
lowered (c ∷ cs) = lower_ascii c ∷ lowered cs

has_infix : List ℕ → List ℕ → Bool
has_infix marker [] = has_prefix marker []
has_infix marker (c ∷ cs) = has_prefix marker (c ∷ cs) || has_infix marker cs

-- `contains_forbidden_representation_bytes`; the markers are ASCII, so code points serve as bytes.
unfoldable pub contains_forbidden_representation : String → Bool
unfolding has_infix codes has_prefix
contains_forbidden_representation raw =
    let low = lowered (codes raw) in
    has_infix (codes "sessionsource(") low
    || has_infix (codes "platform.feishu") low
    || has_infix (codes "<platform.") low
    || has_infix (codes "object at 0x") low

unfoldable pub one_of : String → List String → Bool
one_of key [] = false
one_of key (k ∷ ks) = key == k || one_of key ks

unfoldable pub has_field : String → PerceptEvent → Bool
has_field key [] = false
has_field key ((k, v) ∷ fields) = k == key || has_field key fields

unfoldable pub field_value : String → PerceptEvent → Option EventValue
field_value key [] = none
field_value key ((k, v) ∷ fields) = if k == key then some v else field_value key fields

abbrev pub event_keys : List String
event_keys =
    "event_id" ∷ "life_did" ∷ "source_body_id" ∷ "modality" ∷ "observed_at" ∷ "payload_ref"
    ∷ "salience_hint" ∷ "idempotency_key" ∷ "schema_version" ∷ []

abbrev pub private_keys : List String
private_keys = "message" ∷ "text" ∷ "content" ∷ "target" ∷ "chat_id" ∷ "thread_id" ∷ []

only_keys : List String → PerceptEvent → Bool
unfolding one_of
only_keys allowed [] = true
only_keys allowed ((k, v) ∷ fields) = one_of k allowed && only_keys allowed fields

has_fields : List String → PerceptEvent → Bool
unfolding has_field
has_fields [] event = true
has_fields (k ∷ ks) event = has_field k event && has_fields ks event

any_field : List String → PerceptEvent → Bool
unfolding has_field
any_field [] event = false
any_field (k ∷ ks) event = has_field k event || any_field ks event

module _ (rep : Representation) where
  open rep use {sanitize, dumps}

  abbrev sanitize_value : EventValue → EventValue
  sanitize_value (text s) = text (sanitize s)
  sanitize_value (number n) = number n

  -- `canonicalize_operational_value` of an event.
  unfoldable pub canonical_event : PerceptEvent → PerceptEvent
  canonical_event [] = []
  canonical_event ((k, v) ∷ fields) = (k, sanitize_value v) ∷ canonical_event fields

  -- `_canonical_percept_event`
  unfoldable pub canonical_percept_event : PerceptEvent → Result PerceptEvent
  unfolding only_keys has_fields any_field canonical_event
  canonical_percept_event event = do
    raise_if (not (only_keys event_keys event && has_fields event_keys event))
        (value_error "percept_outbox_event_shape_invalid")
    let safe = canonical_event event
    raise_if (contains_forbidden_representation (dumps safe))
        (value_error "percept_outbox_representation_forbidden")
    raise_if (any_field private_keys safe) (value_error "percept_outbox_private_payload_forbidden")
    ok safe

  abbrev read_event : Option OutboxRow → Result (Option PerceptEvent)
  read_event none = ok none
  read_event (some row) = do
    event ←
        rethrow (canonical_percept_event row.event) (corruption "invalid_percept_outbox_payload")
    ok (some event)

  -- `get_percept_event`; the stored JSON reads back as the event that was written.
  unfoldable pub get_percept_event : String → Database → Result (Option PerceptEvent)
  get_percept_event id db = read_event (find_outbox id db.outbox)

-- `clear_percept_event`
unfoldable pub clear_percept_event : String → Exec Database (Unit {0})
clear_percept_event id db =
    (ok tt, record db { outbox = select (λ r. not (r.operation_id == id)) db.outbox })

abbrev outbox_before : OutboxRow → OutboxRow → Bool
outbox_before a b = pair_lt a.created_at a.operation_id b.created_at b.operation_id

abbrev outbox_ids : List OutboxRow → List String
outbox_ids [] = []
outbox_ids (row ∷ rows) = row.operation_id ∷ outbox_ids rows

-- `list_percept_outbox_operation_ids`
unfoldable pub list_percept_outbox_operation_ids : Database → List String
unfolding order_by
list_percept_outbox_operation_ids db = outbox_ids (order_by outbox_before db.outbox)
