-- ===== src/Store/Recovery.antt =====
-- The recovery of contacts that a restart found in flight.
use hermes_life_bridge.Prelude.{some, List, [], ◌∷◌, String}
use hermes_life_bridge.Errors.{Result, ok, ◌>>=◌}
use hermes_life_bridge.Exec.{Exec, transaction}
use hermes_life_bridge.Contract.{in_flight, contact, BridgeOperation, post_init}
use hermes_life_bridge.Store.Table.{Database, row_to_operation, list_rows}
use hermes_life_bridge.Store.Transition.{unknown_candidate, persist_transition}

-- The loop of `recover_interrupted_contact_operations`.
unfoldable pub recover_contacts :
    String → List BridgeOperation → Database → Result (List BridgeOperation × Database)
recover_contacts at [] db = ok ([], db)
recover_contacts at (row ∷ rows) db = do
  current ← row_to_operation row
  candidate ← post_init (unknown_candidate at (some "process_restart_in_flight") current)
  stored ← persist_transition current candidate db
  rest ← recover_contacts at rows stored.1
  ok (stored.0 ∷ rest.0, rest.1)

-- `recover_interrupted_contact_operations`
unfoldable pub recover_interrupted_contact_operations :
    String → Exec Database (List BridgeOperation)
unfolding recover_contacts transaction list_rows
recover_interrupted_contact_operations recovered_at =
    transaction
      (λ db. recover_contacts recovered_at (list_rows (some contact) (some in_flight) db) db)
