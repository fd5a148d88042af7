-- ===== src/Work/Ledger.antt =====
-- WorkStore: `accept`, `note_activity` and `evaluate_due`, each one transaction.
use hermes_life_bridge.Prelude.{
  ℕ, ◌+◌, Bool, true, false, not, ◌&&◌, ◌||◌, Option, none, some, List, [], ◌∷◌, String, ◌==◌, ltb,
  leb, eqb, if◌then◌else◌, length, take, first, select, order_by, update_where, count_where,
}
use hermes_life_bridge.Errors.{
  Result, ok, err, value_error, work_contract_error, work_conflict, work_corruption, rethrow,
  raise_if, ◌>>=◌, ◌>>◌,
}
use hermes_life_bridge.Exec.{Exec, transaction}
use hermes_life_bridge.Calendar.{Calendar}
use hermes_life_bridge.Store.{one_of}
use hermes_life_bridge.Work.Contract.{WorkFact, ActivityFact, parse_fact_time}
use hermes_life_bridge.Work.Mapping.{
  from_mapping, to_mapping, activity_from_mapping, activity_to_mapping,
}
use hermes_life_bridge.Work.Tables.{
  OutboxState, pending_idle, invalidated, suppressed, shadow_candidate, state_name, is_pending,
  LedgerRow, EpochRow, ShadowRow, WorkTables, WorkAcceptance, ActivityAcceptance, WorkEvaluation,
  of_fact, of_key, of_session, due_order, find_epoch, is_found, insert_ledger, insert_shadow,
  set_disposition, set_state, add_metric,
}

-- What is outside: the date of an instant, `_format_utc` of it, and the digest of a fact's canonical
-- JSON. Times do not run past the last one that `datetime` has.
pub record WorkHost : Type 0 where
  pub date_of : ℕ → String
  pub format_utc : ℕ → String
  pub digest : WorkFact → String

module _ (calendar : Calendar) (host : WorkHost) where
  open host use {date_of, format_utc, digest}

  -- `_metric`
  unfoldable pub metric : String → String → ℕ → WorkTables → Result WorkTables
  unfolding parse_fact_time add_metric
  metric name at n t = if eqb n 0 then ok t else (do
    instant ← parse_fact_time calendar "metric_timestamp" at
    ok (record t { metrics = add_metric (date_of instant) name n t.metrics }))

  -- INSERT OR IGNORE INTO session_epochs
  unfoldable pub ensure_epoch : String → List EpochRow → List EpochRow
  unfolding find_epoch
  ensure_epoch session rows =
      if is_found (find_epoch session rows)
      then rows
      else record {
        session_id = session;
        epoch = 0;
        observer_available = false;
        last_activity_at = none;
      }
        ∷ rows

  abbrev pub require_epoch : Option EpochRow → Result ℕ
  require_epoch none = err (work_corruption "session_epoch_missing")
  require_epoch (some row) = ok row.epoch

  -- The branch of `accept` for a key that is there.
  abbrev pub accept_again :
      LedgerRow → WorkFact → String → WorkTables → Result (WorkAcceptance × WorkTables)
  accept_again old fact fact_digest t = do
    raise_if (not (old.fact_digest == fact_digest))
        (work_conflict "idempotency_key_reused_with_different_fact")
    t' ← metric "duplicate" fact.observed_at 1 t
    ok (
      record {
        status = "duplicate";
        fact_id = old.fact.fact_id;
        idempotency_key = old.fact.idempotency_key;
        fact_digest = old.fact_digest;
        accepted_epoch = old.accepted_epoch;
        outbox_state = old.disposition;
      },
      t',
    )

  abbrev pub ledger_row : WorkFact → String → ℕ → LedgerRow
  ledger_row fact fact_digest epoch = record {
    fact = fact;
    fact_digest = fact_digest;
    accepted_epoch = epoch;
    disposition = pending_idle;
  }

  abbrev pub shadow_row : WorkFact → ℕ → ℕ → ShadowRow
  shadow_row fact epoch due = record {
    fact_id = fact.fact_id;
    idempotency_key = fact.idempotency_key;
    session_id = fact.session_id;
    accepted_epoch = epoch;
    due_at = format_utc due;
    due_at_us = due;
    state = pending_idle;
    reason = "awaiting_idle_deadline";
    updated_at = fact.observed_at;
  }

  -- The branch of `accept` for a new key.
  abbrev pub accept_new : WorkFact → String → ℕ → WorkTables → Result (WorkAcceptance × WorkTables)
  accept_new fact fact_digest due t = do
    raise_if (is_found (first (of_fact fact.fact_id) t.ledger)) (work_conflict "fact_id_reused")
    let epochs' = ensure_epoch fact.session_id t.epochs
    epoch ← require_epoch (find_epoch fact.session_id epochs')
    ledger' ← insert_ledger (ledger_row fact fact_digest epoch) t.ledger
    outbox' ← insert_shadow (shadow_row fact epoch due) t.outbox
    t' ←
        metric "accepted" fact.observed_at 1
          (record t { ledger = ledger'; epochs = epochs'; outbox = outbox' })
    ok (
      record {
        status = "accepted";
        fact_id = fact.fact_id;
        idempotency_key = fact.idempotency_key;
        fact_digest = fact_digest;
        accepted_epoch = epoch;
        outbox_state = pending_idle;
      },
      t',
    )

  abbrev pub accept_at :
      Option LedgerRow → WorkFact → String → ℕ → WorkTables → Result (WorkAcceptance × WorkTables)
  accept_at (some old) fact fact_digest due t = accept_again old fact fact_digest t
  accept_at none fact fact_digest due t = accept_new fact fact_digest due t

  unfoldable pub accept_body : WorkFact → ℕ → WorkTables → Result (WorkAcceptance × WorkTables)
  unfolding from_mapping to_mapping parse_fact_time metric ensure_epoch insert_ledger insert_shadow
  accept_body given idle_delay t = do
    fact ←
        rethrow (from_mapping calendar (to_mapping given))
          (work_contract_error "invalid_typed_work_fact")
    raise_if (ltb 604800000000 idle_delay) (value_error "idle_delay_seconds_out_of_range")
    observed ← parse_fact_time calendar "observed_at" fact.observed_at
    accept_at (first (of_key fact.idempotency_key) t.ledger) fact (digest fact)
        (observed + idle_delay) t

  -- `accept`, with the delay in microseconds
  unfoldable pub accept : WorkFact → ℕ → Exec WorkTables WorkAcceptance
  unfolding transaction accept_body
  accept given idle_delay = transaction (accept_body given idle_delay)

  abbrev pub bumped : String → EpochRow → EpochRow
  bumped at row = record row {
    epoch = row.epoch + 1;
    observer_available = true;
    last_activity_at = some at;
  }

  -- INSERT INTO session_epochs ... ON CONFLICT(session_id) DO UPDATE
  unfoldable pub bump_epoch : String → String → List EpochRow → List EpochRow
  unfolding find_epoch update_where
  bump_epoch session at rows =
      if is_found (find_epoch session rows)
      then update_where (of_session session) (bumped at) rows
      else record {
        session_id = session;
        epoch = 1;
        observer_available = true;
        last_activity_at = some at;
      }
        ∷ rows

  -- WHERE session_id=? AND accepted_epoch<? AND state='pending_idle'
  abbrev pub is_outdated : String → ℕ → ShadowRow → Bool
  is_outdated session epoch row =
      row.session_id == session && ltb row.accepted_epoch epoch && is_pending row.state

  unfoldable pub fact_ids : List ShadowRow → List String
  fact_ids [] = []
  fact_ids (row ∷ rows) = row.fact_id ∷ fact_ids rows

  unfoldable pub note_body : ActivityFact → WorkTables → Result (ActivityAcceptance × WorkTables)
  unfolding activity_from_mapping activity_to_mapping bump_epoch find_epoch select fact_ids
      set_state set_disposition metric
  note_body given t = do
    activity ←
        rethrow (activity_from_mapping calendar (activity_to_mapping given))
          (work_contract_error "invalid_typed_activity_fact")
    let epochs' = bump_epoch activity.session_id activity.observed_at t.epochs
    epoch ← require_epoch (find_epoch activity.session_id epochs')
    let outdated = is_outdated activity.session_id epoch
    let ids = fact_ids (select outdated t.outbox)
    let moved : WorkTables = record t {
      epochs = epochs';
      outbox =
          set_state outdated invalidated "newer_session_activity" activity.observed_at t.outbox;
      ledger = set_disposition (λ r. one_of r.fact.fact_id ids) invalidated t.ledger;
    }
    t1 ← metric "activity" activity.observed_at 1 moved
    t2 ← metric "invalidated" activity.observed_at (length ids) t1
    ok (
      record {
        session_id = activity.session_id;
        epoch = epoch;
        invalidated_count = length ids;
        observed_at = activity.observed_at;
      },
      t2,
    )

  -- `note_activity`
  unfoldable pub note_activity : ActivityFact → Exec WorkTables ActivityAcceptance
  unfolding transaction note_body
  note_activity given = transaction (note_body given)

  -- What becomes of a fact that is due, by its session's row.
  abbrev pub judge : Option EpochRow → ℕ → OutboxState × String
  judge none accepted = (suppressed, "activity_observer_unavailable")
  judge (some row) accepted =
      if not row.observer_available
      then (suppressed, "activity_observer_unavailable")
      else if not (eqb row.epoch accepted)
      then (invalidated, "idle_epoch_mismatch")
      else (shadow_candidate, "idle_epoch_matched")

  abbrev current_epoch_of : Option EpochRow → Option ℕ
  current_epoch_of none = none
  current_epoch_of (some row) = some row.epoch

  abbrev pub is_pending_fact : String → ShadowRow → Bool
  is_pending_fact id row = row.fact_id == id && is_pending row.state

  -- One round of `evaluate_due`.
  unfoldable pub evaluate_row :
      String → ShadowRow → WorkTables → Result (WorkEvaluation × WorkTables)
  unfolding find_epoch count_where set_state set_disposition metric
  evaluate_row now row t = do
    let session = find_epoch row.session_id t.epochs
    let verdict = judge session row.accepted_epoch
    raise_if (not (eqb (count_where (is_pending_fact row.fact_id) t.outbox) 1))
        (work_corruption "outbox_transition_lost")
    let moved : WorkTables = record t {
      outbox = set_state (is_pending_fact row.fact_id) verdict.0 verdict.1 now t.outbox;
      ledger = set_disposition (of_fact row.fact_id) verdict.0 t.ledger;
    }
    t' ← metric (state_name verdict.0) now 1 moved
    ok (
      record {
        fact_id = row.fact_id;
        session_id = row.session_id;
        accepted_epoch = row.accepted_epoch;
        current_epoch = current_epoch_of session;
        state = verdict.0;
        reason = verdict.1;
      },
      t',
    )

  unfoldable pub evaluate_rows :
      String → List ShadowRow → WorkTables → Result (List WorkEvaluation × WorkTables)
  unfolding evaluate_row
  evaluate_rows now [] t = ok ([], t)
  evaluate_rows now (row ∷ rows) t = do
    one ← evaluate_row now row t
    rest ← evaluate_rows now rows one.1
    ok (one.0 ∷ rest.0, rest.1)

  abbrev pub due_rows : ℕ → ℕ → WorkTables → List ShadowRow
  due_rows now limit t =
      take limit
        (order_by due_order (select (λ r. is_pending r.state && leb r.due_at_us now) t.outbox))

  unfoldable pub evaluate_body : String → ℕ → WorkTables → Result (List WorkEvaluation × WorkTables)
  unfolding parse_fact_time evaluate_rows select order_by
  evaluate_body now limit t = do
    instant ← parse_fact_time calendar "now" now
    raise_if (ltb limit 1 || ltb 1000 limit) (value_error "limit_out_of_range")
    evaluate_rows now (due_rows instant limit t) t

  -- `evaluate_due`
  unfoldable pub evaluate_due : String → ℕ → Exec WorkTables (List WorkEvaluation)
  unfolding transaction evaluate_body
  evaluate_due now limit = transaction (evaluate_body now limit)
