-- ===== src/Retry/Due.antt =====
-- The selection of `due_operations`: which waiting operations are due, and in which order.
use hermes_life_bridge.Prelude.{
  ℕ, Bool, ◌&&◌, ◌||◌, Option, none, some, List, [], ◌∷◌, String, ltb, leb, eqb, if◌then◌else◌,
  text_lt,
}
use hermes_life_bridge.Errors.{Result, ok, err, timestamp_error, ◌>>=◌}
use hermes_life_bridge.Calendar.{Calendar, parse_timestamp}
use hermes_life_bridge.Contract.{BridgeOperation}

-- The sort key: the time, then the id.
abbrev pub due_before : ℕ × BridgeOperation → ℕ × BridgeOperation → Bool
due_before (t, a) (u, b) = ltb t u || eqb t u && text_lt a.operation_id b.operation_id

abbrev pub operations_of : List (ℕ × BridgeOperation) → List BridgeOperation
operations_of [] = []
operations_of ((t, op) ∷ rest) = op ∷ operations_of rest

module _ (calendar : Calendar) where
  abbrev due_time : Option String → Result ℕ
  due_time none = err (timestamp_error "retry_wait_missing_next_attempt_at")
  due_time (some t) = parse_timestamp calendar t

  -- The loop over the waiting operations, with the time at which each is due.
  unfoldable pub due_entries : ℕ → List BridgeOperation → Result (List (ℕ × BridgeOperation))
  due_entries instant [] = ok []
  due_entries instant (op ∷ ops) = do
    t ← due_time op.next_attempt_at
    rest ← due_entries instant ops
    ok (if leb t instant then (t, op) ∷ rest else rest)
