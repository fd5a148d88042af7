-- ===== src/Store/Purge.antt =====
-- purge_terminal: old rows of Percepts and Cognitions that are over are deleted.
use hermes_life_bridge.Prelude.{
  ℕ, zero, suc, Bool, not, ◌&&◌, ◌||◌, List, [], ◌∷◌, String, ltb, if◌then◌else◌, select, order_by,
  length, pair_lt,
}
use hermes_life_bridge.Errors.{Result, ok, err, value_error, raise_if}
use hermes_life_bridge.Exec.{Exec, lift, ◌>>=◌, ◌>>◌}
use hermes_life_bridge.Calendar.{Calendar, parse_utc}
use hermes_life_bridge.Contract.{
  completed, exhausted, percept, cognition, BridgeOperation, same_state, same_kind,
}
use hermes_life_bridge.Store.Table.{Database, OutboxRow}
use hermes_life_bridge.Store.Outbox.{one_of}

-- WHERE kind IN ('percept','cognition') AND state IN ('completed','exhausted')
unfoldable pub is_terminal_row : BridgeOperation → Bool
unfolding same_kind same_state
is_terminal_row r =
    (same_kind r.kind percept || same_kind r.kind cognition)
    && (same_state r.state completed || same_state r.state exhausted)

-- ORDER BY updated_at, operation_id
abbrev pub updated_before : BridgeOperation → BridgeOperation → Bool
updated_before a b = pair_lt a.updated_at a.operation_id b.updated_at b.operation_id

unfoldable pub terminal_rows : Database → List BridgeOperation
unfolding select order_by is_terminal_row
terminal_rows db = order_by updated_before (select is_terminal_row db.operations)

-- DELETE of the rows with these ids; the outbox entries go with them (ON DELETE CASCADE).
unfoldable pub delete_ids : List String → Database → Database
unfolding select one_of
delete_ids ids db = record {
  operations = select (λ r. not (one_of r.operation_id ids)) db.operations;
  outbox = select (λ (e : OutboxRow). not (one_of e.operation_id ids)) db.outbox;
}

-- The body of the loop that selects: `room` more ids may be selected. The tests are on a time that
-- was read, or not.
abbrev pub keep_old : Result ℕ → ℕ → String → List String → List String → List String
keep_old (err e) cutoff id more skipped = skipped
keep_old (ok updated) cutoff id more skipped = if ltb updated cutoff then id ∷ more else skipped

module _ (calendar : Calendar) where
  unfoldable pub select_old : ℕ → ℕ → List BridgeOperation → List String
  select_old cutoff zero rows = []
  select_old cutoff (suc room) [] = []
  select_old cutoff (suc room) (r ∷ rows) =
      keep_old (parse_utc calendar r.updated_at) cutoff r.operation_id (select_old cutoff room rows)
        (select_old cutoff (suc room) rows)

  -- `purge_terminal`
  unfoldable pub purge_terminal : String → ℕ → Exec Database ℕ
  unfolding select_old terminal_rows delete_ids
  purge_terminal before limit db =
      (do
        lift (
            raise_if (ltb limit 1 || ltb 10000 limit)
              (value_error "operation_purge_limit_out_of_range"))
        cutoff ← lift (parse_utc calendar before)
        purge_rows (select_old cutoff limit (terminal_rows db)))
        db
    where
      purge_rows : List String → Exec Database ℕ
      purge_rows ids db = (ok (length ids), delete_ids ids db)
