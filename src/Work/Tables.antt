-- ===== src/Work/Tables.antt =====
-- WorkStore: its tables and their constraints.
use hermes_life_bridge.Prelude.{
  ℕ, ◌+◌, Bool, true, false, ◌&&◌, ◌||◌, Option, none, some, List, ◌∷◌, String, ◌==◌, ltb, eqb,
  first, order_by, update_where, text_lt,
}
use hermes_life_bridge.Errors.{Result, ok, integrity_error, raise_if, ◌>>◌}
use hermes_life_bridge.Work.Contract.{WorkFact}

-- OUTBOX_STATES
pub data OutboxState : Type 0 where
  pending_idle invalidated suppressed shadow_candidate : OutboxState

abbrev pub state_name : OutboxState → String
state_name pending_idle = "pending_idle"
state_name invalidated = "invalidated"
state_name suppressed = "suppressed"
state_name shadow_candidate = "shadow_candidate"

abbrev pub is_pending : OutboxState → Bool
is_pending pending_idle = true
is_pending _ = false

pub record LedgerRow : Type 0 where
  pub fact : WorkFact
  pub fact_digest : String
  pub accepted_epoch : ℕ
  pub disposition : OutboxState

pub record EpochRow : Type 0 where
  pub session_id : String
  pub epoch : ℕ
  pub observer_available : Bool
  pub last_activity_at : Option String

pub record ShadowRow : Type 0 where
  pub fact_id : String
  pub idempotency_key : String
  pub session_id : String
  pub accepted_epoch : ℕ
  pub due_at : String
  pub due_at_us : ℕ
  pub state : OutboxState
  pub reason : String
  pub updated_at : String

pub record MetricRow : Type 0 where
  pub metric_date : String
  pub metric_name : String
  pub metric_count : ℕ

-- work_ledger, session_epochs, shadow_outbox and work_metrics_daily; their CHECK constraints are the
-- types of the columns.
pub record WorkTables : Type 0 where
  pub ledger : List LedgerRow
  pub epochs : List EpochRow
  pub outbox : List ShadowRow
  pub metrics : List MetricRow

pub record WorkAcceptance : Type 0 where
  pub status : String
  pub fact_id : String
  pub idempotency_key : String
  pub fact_digest : String
  pub accepted_epoch : ℕ
  pub outbox_state : OutboxState

pub record ActivityAcceptance : Type 0 where
  pub session_id : String
  pub epoch : ℕ
  pub invalidated_count : ℕ
  pub observed_at : String

-- `current_epoch` is nothing where the source has -1.
pub record WorkEvaluation : Type 0 where
  pub fact_id : String
  pub session_id : String
  pub accepted_epoch : ℕ
  pub current_epoch : Option ℕ
  pub state : OutboxState
  pub reason : String

abbrev pub of_fact : String → LedgerRow → Bool
of_fact id row = row.fact.fact_id == id

abbrev pub of_key : String → LedgerRow → Bool
of_key key row = row.fact.idempotency_key == key

abbrev pub of_shadow : String → ShadowRow → Bool
of_shadow id row = row.fact_id == id

abbrev pub of_session : String → EpochRow → Bool
of_session session row = row.session_id == session

-- `get_ledger`
unfoldable pub get_ledger : String → WorkTables → Option LedgerRow
unfolding first
get_ledger id t = first (of_fact id) t.ledger

-- `get_outbox`
unfoldable pub get_outbox : String → WorkTables → Option ShadowRow
unfolding first
get_outbox id t = first (of_shadow id) t.outbox

abbrev pub due_order : ShadowRow → ShadowRow → Bool
due_order a b =
    ltb a.due_at_us b.due_at_us || eqb a.due_at_us b.due_at_us && text_lt a.fact_id b.fact_id

-- `list_outbox`
unfoldable pub list_outbox : WorkTables → List ShadowRow
unfolding order_by
list_outbox t = order_by due_order t.outbox

unfoldable pub find_epoch : String → List EpochRow → Option EpochRow
unfolding first
find_epoch session rows = first (of_session session) rows

abbrev epoch_or_none : Option EpochRow → Option ℕ
epoch_or_none none = none
epoch_or_none (some row) = some row.epoch

-- `get_session_epoch`
unfoldable pub get_session_epoch : String → WorkTables → Option ℕ
unfolding find_epoch
get_session_epoch session t = epoch_or_none (find_epoch session t.epochs)

abbrev pub is_found {ℓ} : {A : Type ℓ} → Option A → Bool
is_found none = false
is_found (some a) = true

-- INSERT INTO work_ledger: the primary key and the unique key.
unfoldable pub insert_ledger : LedgerRow → List LedgerRow → Result (List LedgerRow)
unfolding first
insert_ledger row rows = do
  raise_if (is_found (first (of_fact row.fact.fact_id) rows)) integrity_error
  raise_if (is_found (first (of_key row.fact.idempotency_key) rows)) integrity_error
  ok (row ∷ rows)

-- INSERT INTO shadow_outbox
unfoldable pub insert_shadow : ShadowRow → List ShadowRow → Result (List ShadowRow)
unfolding first
insert_shadow row rows = do
  raise_if (is_found (first (of_shadow row.fact_id) rows)) integrity_error
  raise_if (is_found (first (λ (r : ShadowRow). r.idempotency_key == row.idempotency_key) rows))
      integrity_error
  ok (row ∷ rows)

-- UPDATE work_ledger SET disposition=? WHERE ...
unfoldable pub set_disposition : (LedgerRow → Bool) → OutboxState → List LedgerRow → List LedgerRow
unfolding update_where
set_disposition test s rows = update_where test (λ r. record r { disposition = s }) rows

-- UPDATE shadow_outbox SET state=?,reason=?,updated_at=? WHERE ...
unfoldable pub set_state :
    (ShadowRow → Bool) → OutboxState → String → String → List ShadowRow → List ShadowRow
unfolding update_where
set_state test s reason at rows =
    update_where test (λ r. record r { state = s; reason = reason; updated_at = at }) rows

abbrev pub is_metric : String → String → MetricRow → Bool
is_metric date name row = row.metric_date == date && row.metric_name == name

abbrev pub add_metric_at : Option MetricRow → String → String → ℕ → List MetricRow → List MetricRow
add_metric_at none date name n rows =
    record { metric_date = date; metric_name = name; metric_count = n } ∷ rows
add_metric_at (some old) date name n rows =
    update_where (is_metric date name) (λ r. record r { metric_count = r.metric_count + n }) rows

-- INSERT INTO work_metrics_daily ... ON CONFLICT ... DO UPDATE SET count=count+excluded.count
unfoldable pub add_metric : String → String → ℕ → List MetricRow → List MetricRow
unfolding first update_where
add_metric date name n rows = add_metric_at (first (is_metric date name) rows) date name n rows
