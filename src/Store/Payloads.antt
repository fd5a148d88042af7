-- ===== src/Store/Payloads.antt =====
-- What reserve_percept leaves: its payload in the outbox, and every stored operation as it was.
use hermes_life_bridge.Prelude.{
  ◌≡◌, ◌⊎◌, inl, inr, refl, sym, ap, subst, ◌∙◌, Bool-cases, Bool, true, false, not, ◌&&◌, Option,
  none, some, ◌∷◌, String, arith, ◌==◌, eq_iff,
}
use hermes_life_bridge.Errors.{
  Result, ok, err, ok_inj, operation_conflict, corruption, integrity_error, raise_if,
  raise_if-eq-ok, ◌>>=◌, >>=-eq-ok,
}
use hermes_life_bridge.Exec.{transaction, settle-eq-ok}
use hermes_life_bridge.Contract.{BridgeOperation, completed, same_state}
use hermes_life_bridge.Store.Table.{
  PerceptEvent, Database, find_id, find_key, find_outbox, is_some, insert_operation,
  row_to_operation,
}
use hermes_life_bridge.Store.Outbox.{Representation}
use hermes_life_bridge.Store.Reserve.{
  operation_values, insert_new, reuse, check_outbox, check_percept, with_event, reserve_percept_at,
  reserve_percept_body, reserve_percept,
}
use hermes_life_bridge.Store.Reserved.{insert_operation-eq-ok}

-- Every stored operation is stored as it was.
abbrev pub NothingLost : Database → Database → Type 0
NothingLost db db' =
    (j : String) (row : BridgeOperation)
    → find_id j db.operations ≡ some row
    → find_id j db'.operations ≡ some row

abbrev pub HasPayload : BridgeOperation → Database → Type 0
HasPayload op db =
    (same_state op.state completed ≡ true)
    ⊎ (is_some (find_outbox op.operation_id db.outbox) ≡ true)

none-ne-some : {A : Type 0} {x : A} → ◌≡◌ {A = Option A} none (some x) → ⊥
none-ne-some h = cc

added-NothingLost :
    (row : BridgeOperation) (db db' : Database)
    → find_id row.operation_id db.operations ≡ none
    → db'.operations ≡ row ∷ db.operations
    → NothingLost db db'
unfolding find_id
added-NothingLost row db db' free e j old found = elim (Bool-cases (row.operation_id == j)) [
  | inl same ↦ absurd (
      none-ne-some (
        subst (λ i. none ≡ find_id i db.operations) ((eq_iff row.operation_id j).0 same) (sym free)
        ∙ found))
  | inr other ↦ rw (e, other) found
]

module _ (rep : Representation) (op : BridgeOperation) (db : Database) where
  insert_new-NothingLost : {db' : Database} → insert_new rep op db ≡ ok db' → NothingLost db db'
  insert_new-NothingLost {db'} h =
      let row = operation_values rep op in
      let (_, _, rest) =
        >>=-eq-ok
          (raise_if (is_some (find_id op.operation_id db.operations))
            (operation_conflict "operation_id_reused"))
          (λ _. insert_operation row db.operations >>= λ rows. ok (record db { operations = rows }))
          h in
      let (rows, inserted, e) =
        >>=-eq-ok {B = Database} (insert_operation row db.operations)
          (λ rows. ok (record db { operations = rows })) rest in
      let (same, free) = insert_operation-eq-ok row db.operations inserted in
      added-NothingLost row db db' free
        (ap (λ (d : Database). d.operations) (sym (ok_inj e)) ∙ same)

  abbrev Kept : (BridgeOperation × Bool) × Database → Type 0
  Kept r = HasPayload (r.0).0 r.1 × NothingLost db r.1

  checked : (a b : Bool) → not a && not b ≡ false → (a ≡ true) ⊎ (b ≡ true)
  checked true b h = inl refl
  checked false true h = inr refl
  checked false false h = absurd cc

  reserve_percept_at-Kept :
      (taken : Option BridgeOperation) (event : PerceptEvent)
      {r : (BridgeOperation × Bool) × Database}
      → reserve_percept_at rep taken op event db ≡ ok r
      → Kept r
  unfolding find_outbox
  reserve_percept_at-Kept none event h =
      let (made, inserted, rest) = >>=-eq-ok (insert_new rep op db) _ h in
      let (_, _, e) =
        >>=-eq-ok (raise_if (is_some (find_outbox op.operation_id db.outbox)) integrity_error) _
          rest in
      subst Kept (ok_inj e) (
        inr (rw ((eq_iff op.operation_id op.operation_id).1 refl) refl),
        insert_new-NothingLost inserted,
      )
  reserve_percept_at-Kept (some row) event {r} h =
      let (found, reused, rest) = >>=-eq-ok (reuse rep op row db) _ h in
      let (_, payload, e) = >>=-eq-ok (check_outbox rep (found.0).0 db) (λ _. ok found) rest in
      let (existing, _, rest') = >>=-eq-ok (row_to_operation row) _ reused in
      let (_, _, same) =
        >>=-eq-ok
          (raise_if (not (existing.request_hash == op.request_hash))
            (operation_conflict "idempotency_key_reused_with_different_request"))
          (λ _. ok ((existing, false), db)) rest' in
      let kept_db : db ≡ found.1 =
        ap (λ (x : (BridgeOperation × Bool) × Database). x.1) (ok_inj same) in
      subst Kept (ok_inj e) (
        subst (λ d. HasPayload (found.0).0 d) kept_db
            (checked (same_state (found.0).0.state completed)
              (is_some (find_outbox (found.0).0.operation_id db.outbox))
              (raise_if-eq-ok _ (corruption "percept_outbox_payload_missing") payload)),
        subst (λ d. NothingLost db d) kept_db (λ j old f. f),
      )

  event_cases :
      (c : Result PerceptEvent) {r : BridgeOperation × Bool} {db' : Database}
      → with_event rep c (λ safe. transaction (reserve_percept_body rep op safe)) db ≡ (ok r, db')
      → Kept (r, db')
  unfolding transaction reserve_percept_body
  event_cases (ok safe) h =
      reserve_percept_at-Kept (find_key op.kind op.idempotency_key db.operations) safe
        (settle-eq-ok db (reserve_percept_body rep op safe db) h)
  event_cases (err e) h = absurd (ground arith)

  -- A Percept that `reserve_percept` returns, new or stored before, is completed or has its payload
  -- in the outbox, and every operation that was stored is stored as it was.
  pub reserve_percept-HasPayload :
      (event : PerceptEvent) {stored : BridgeOperation} {created : Bool} {db' : Database}
      → reserve_percept rep op event db ≡ (ok (stored, created), db')
      → HasPayload stored db' × NothingLost db db'
  unfolding reserve_percept
  reserve_percept-HasPayload event h = event_cases (check_percept rep op event) h
