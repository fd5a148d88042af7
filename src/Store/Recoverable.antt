-- ===== src/Store/Recoverable.antt =====
-- The recovery of contacts returns on a sound store.
use hermes_life_bridge.Prelude.{
  ◌≡◌, refl, true, false, some, List, [], ◌∷◌, String, arith, is_blank, is_safe_token, All,
  Distinct, All-select, All-order_by, select-All,
}
use hermes_life_bridge.Errors.{ok}
use hermes_life_bridge.Exec.{transaction}
use hermes_life_bridge.Contract.{
  BridgeOperation, in_flight, contact, IsWellFormed, post_init, post_init_iff, same_state_iff,
  same_kind_iff,
}
use hermes_life_bridge.Store.Table.{Database, find_id, list_rows, created_before}
use hermes_life_bridge.Store.Lookup.{same_id, find_id-All}
use hermes_life_bridge.Store.Soundness.{
  IsSound, stepped, row_to_operation_sound, persist_transition_total,
}
use hermes_life_bridge.Store.Calls.{losing}
use hermes_life_bridge.Store.Admitted.{outcome_of-IsWellFormed, outcome_of-allowed}
use hermes_life_bridge.Store.Retention.{IsFound, All-IsFound}
use hermes_life_bridge.Store.Recovery.{recover_contacts, recover_interrupted_contact_operations}
use hermes_life_bridge.Store.Interrupted.{
  wanted, listed-Distinct, recovered_as, recover_one, still_found,
}

is_interrupted :
    (op : BridgeOperation) → wanted op ≡ true → (op.kind ≡ contact) × (op.state ≡ in_flight)
is_interrupted op h = (
  ground (arith, h, same_kind_iff op.kind contact),
  ground (arith, h, same_state_iff op.state in_flight),
)

module _ (at : String) (given : is_blank at ≡ false) where
  recover_contacts_total :
      (rows : List BridgeOperation) (db : Database)
      → IsSound db
      → Distinct same_id rows
      → All (λ (r : BridgeOperation). find_id r.operation_id db.operations ≡ some r) rows
      → All (λ r. wanted r ≡ true) rows
      → (r : List BridgeOperation × Database) × (recover_contacts at rows db ≡ ok r)
  unfolding recover_contacts is_safe_token
  recover_contacts_total [] db s d f a = (([], db), refl)
  recover_contacts_total (row ∷ rows) db s d f a =
      let well = find_id-All IsWellFormed row.operation_id db.operations f.0 s.well_formed in
      let code = some "process_restart_in_flight" in
      let admits = is_interrupted row a.0 in
      let made = recovered_as at row in
      let read = row_to_operation_sound row well in
      let built : post_init made ≡ ok made =
        (post_init_iff made made).1
          (outcome_of-IsWellFormed at row well (losing code) admits (given, refl), refl) in
      let kept =
        persist_transition_total db s row.operation_id row f.0 made
          (outcome_of-allowed (losing code) at row admits) in
      let one = recover_one at row db s f.0 read built kept in
      let (r, rest) =
        recover_contacts_total rows (stepped row made db) one.sound d.1
          (still_found at row rows db (stepped row made db) made one d.0 f.1) a.1 in
      ((made ∷ r.0, r.1), rw (read, built, kept, rest) refl)

  -- On a sound store and with a non-blank time, the recovery returns.
  pub recover_interrupted_total :
      (db : Database)
      → IsSound db
      → (r : List BridgeOperation × Database) × (recover_interrupted_contact_operations at db
          ≡ (ok r.0, r.1))
  unfolding recover_interrupted_contact_operations transaction list_rows IsFound
  recover_interrupted_total db s =
      let (r, returned) =
        recover_contacts_total (list_rows (some contact) (some in_flight) db) db s
          (listed-Distinct db s)
          (All-order_by (λ (r : BridgeOperation). find_id r.operation_id db.operations ≡ some r)
            created_before _ (All-select _ wanted db.operations (All-IsFound db.operations s.ids)))
          (All-order_by (λ r. wanted r ≡ true) created_before _
            (select-All wanted db.operations)) in
      (r, rw returned refl)
