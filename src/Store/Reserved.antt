-- ===== src/Store/Reserved.antt =====
-- A reservation and the recovery of contacts lower no attempt counter, and what a reservation
-- returns is stored with the counter that it shows.
use hermes_life_bridge.Prelude.{
  ℕ, ◌≤◌, ◌≡◌, refl, sym, ap, subst, ◌∙◌, inl, inr, Bool-cases, Bool, true, false, not, Option,
  none, some, List, [], ◌∷◌, String, arith, ◌==◌, eq_iff, Distinct, first,
}
use hermes_life_bridge.Errors.{
  Fault, Result, ok, err, ok_inj, operation_conflict, raise_if, ◌>>=◌, ◌>>◌, >>=-eq-ok,
}
use hermes_life_bridge.Exec.{transaction, settle-eq-ok, settle-eq-err}
use hermes_life_bridge.Exec.Preserves.{Preserves}
use hermes_life_bridge.Contract.{BridgeOperation}
use hermes_life_bridge.Store.Table.{
  Database, by_id, by_key, find_id, find_key, is_some, insert_operation, row_to_operation,
}
use hermes_life_bridge.Store.Outbox.{Representation}
use hermes_life_bridge.Store.Reserve.{
  validate_initial, operation_values, insert_new, reserve_at, reserve_body, after_checks, reserve,
}
use hermes_life_bridge.Store.Lookup.{same_id}
use hermes_life_bridge.Store.Soundness.{row_to_operation-eq-ok}
use hermes_life_bridge.Store.Idempotency.{All-first-none, first-All}
use hermes_life_bridge.Store.Attempts.{attempts_of, tried, AtLeast}

-- With unique ids, a row that a search finds is the row of its id.
find_id-first :
    (test : BridgeOperation → Bool) (rows : List BridgeOperation) (row : BridgeOperation)
    → Distinct same_id rows
    → first test rows ≡ some row
    → find_id row.operation_id rows ≡ some row
unfolding first find_id
find_id-first test [] row d h = cc
find_id-first test (x ∷ xs) row d h = elim (Bool-cases (test x)) [
  | inl hit ↦ ground (arith, eq_iff x.operation_id row.operation_id)
  | inr missed ↦
      let there : first test xs ≡ some row = rw missed at h in
      let other = first-All (λ y. same_id y x ≡ false) test xs there d.0 in
      ground (
        arith,
        eq_iff x.operation_id row.operation_id,
        eq_iff row.operation_id x.operation_id,
        find_id-first test xs row d.1 there,
      )
]

pub insert_operation-eq-ok :
    (row : BridgeOperation) (rows : List BridgeOperation) {rows' : List BridgeOperation}
    → insert_operation row rows ≡ ok rows'
    → (rows' ≡ row ∷ rows) × (find_id row.operation_id rows ≡ none)
unfolding insert_operation
insert_operation-eq-ok row rows h = ground arith

abbrev with_row : BridgeOperation → Database → Database
with_row row db = record db { operations = row ∷ db.operations }

module _ (n : String → ℕ) (row : BridgeOperation) (db : Database) (least : AtLeast n db)
    (free : find_id row.operation_id db.operations ≡ none) where
  tried-with_row : tried row.operation_id (with_row row db) ≡ row.attempt
  unfolding find_id
  tried-with_row = rw ((eq_iff row.operation_id row.operation_id).1 refl) refl

  none_before : (j : String) → (row.operation_id == j) ≡ true → n j ≤ 0
  none_before j here =
      subst (λ (o : Option BridgeOperation). n j ≤ attempts_of o)
        (subst (λ i. find_id i db.operations ≡ none) ((eq_iff row.operation_id j).0 here) free)
        (least.reached j)

  reached-with_row : (j : String) → n j ≤ tried j (with_row row db)
  unfolding find_id
  reached-with_row j = elim (Bool-cases (row.operation_id == j)) [
    | inl here ↦ rw here (omega (arith, none_before j here))
    | inr there ↦ rw there (least.reached j)
  ]

  with_row-AtLeast : AtLeast n (with_row row db)
  unfolding find_id
  with_row-AtLeast = record {
    ids = (All-first-none (by_id row.operation_id) db.operations free, least.ids);
    reached = reached-with_row;
  }

-- What is returned is stored with the counter that it shows, and no counter is below its bound.
abbrev pub Counted : (String → ℕ) → (BridgeOperation × Bool) × Database → Type 0
Counted n r = (tried (r.0).0.operation_id r.1 ≡ (r.0).0.attempt) × AtLeast n r.1

module _ (rep : Representation) (n : String → ℕ) (op : BridgeOperation) (db : Database)
    (least : AtLeast n db) where
  open rep use {sanitize}

  canonical_id : validate_initial rep op ≡ ok tt → sanitize op.operation_id ≡ op.operation_id
  unfolding validate_initial
  canonical_id h = ground (arith, eq_iff (sanitize op.operation_id) op.operation_id)

  -- A reservation that inserted a row.
  insert_new-eq-ok :
      validate_initial rep op ≡ ok tt
      → {db' : Database} → insert_new rep op db ≡ ok db'
      → (tried op.operation_id db' ≡ op.attempt) × AtLeast n db'
  unfolding operation_values
  insert_new-eq-ok valid {db'} h =
      let row = operation_values rep op in
      let (_, _, rest) =
        >>=-eq-ok
          (raise_if (is_some (find_id op.operation_id db.operations))
            (operation_conflict "operation_id_reused"))
          (λ _. insert_operation row db.operations >>= λ rows. ok (record db { operations = rows }))
          h in
      let (rows, inserted, e) =
        >>=-eq-ok {B = Database} (insert_operation row db.operations)
          (λ rows. ok (record db { operations = rows })) rest in
      let (same, free) = insert_operation-eq-ok row db.operations inserted in
      let after : with_row row db ≡ db' =
        ap (λ (rs : List BridgeOperation). record db { operations = rs }) (sym same) ∙ ok_inj e in
      subst (λ (d : Database). (tried op.operation_id d ≡ op.attempt) × AtLeast n d) after
        (
          subst (λ i. tried i (with_row row db) ≡ op.attempt) (canonical_id valid)
              (tried-with_row n row db least free),
          with_row-AtLeast n row db least free,
        )

  reserve_at-eq-ok :
      validate_initial rep op ≡ ok tt
      → (taken : Option BridgeOperation) → find_key op.kind op.idempotency_key db.operations ≡ taken
      → {r : (BridgeOperation × Bool) × Database} → reserve_at rep taken op db ≡ ok r
      → Counted n r
  unfolding find_key
  reserve_at-eq-ok valid none f h =
      let (made, inserted, e) = >>=-eq-ok (insert_new rep op db) (λ db'. ok ((op, true), db')) h in
      subst (Counted n) (ok_inj e) (insert_new-eq-ok valid inserted)
  reserve_at-eq-ok valid (some row) f h =
      let (existing, read, rest) =
        >>=-eq-ok (row_to_operation row)
          (λ existing.
            raise_if (not (existing.request_hash == op.request_hash))
              (operation_conflict "idempotency_key_reused_with_different_request")
            >> ok ((existing, false), db))
          h in
      let (same, _) = row_to_operation-eq-ok row read in
      let (_, _, e) =
        >>=-eq-ok
          (raise_if (not (existing.request_hash == op.request_hash))
            (operation_conflict "idempotency_key_reused_with_different_request"))
          (λ _. ok ((existing, false), db)) rest in
      let found = find_id-first (by_key op.kind op.idempotency_key) db.operations row least.ids f in
      subst (Counted n) (ok_inj e) (
        subst (λ (o : BridgeOperation). tried o.operation_id db ≡ o.attempt) (sym same)
            (rw found refl),
        least,
      )

  checked_cases :
      (v : Result (Unit {0}))
      → validate_initial rep op ≡ v
      → {r : BridgeOperation × Bool} {db' : Database}
      → after_checks rep v (transaction (reserve_body rep op)) db ≡ (ok r, db')
      → Counted n (r, db')
  unfolding transaction reserve_body
  checked_cases (ok u) valid h =
      reserve_at-eq-ok valid (find_key op.kind op.idempotency_key db.operations) refl
        (settle-eq-ok db (reserve_body rep op db) h)
  checked_cases (err e) valid h = absurd (ground arith)

  -- What `reserve` returns is stored under its id with the counter that it shows.
  pub reserve-Counted :
      {r : BridgeOperation × Bool} {db' : Database}
      → reserve rep op db ≡ (ok r, db')
      → Counted n (r, db')
  unfolding reserve
  reserve-Counted h = checked_cases (validate_initial rep op) refl h

  failed_cases :
      (v : Result (Unit {0})) {e : Fault} {db' : Database}
      → after_checks rep v (transaction (reserve_body rep op)) db ≡ (err e, db')
      → db' ≡ db
  unfolding transaction
  failed_cases (ok u) h = settle-eq-err db (reserve_body rep op db) h
  failed_cases (err e) h = ground arith

  reserved_cases :
      (r : Result (BridgeOperation × Bool)) (db' : Database)
      → reserve rep op db ≡ (r, db')
      → AtLeast n db'
  unfolding reserve
  reserved_cases (ok r) db' h = (reserve-Counted h).1
  reserved_cases (err e) db' h =
      subst (λ d. AtLeast n d) (sym (failed_cases (validate_initial rep op) h)) least

pub reserve-AtLeast :
    (rep : Representation) (n : String → ℕ) (op : BridgeOperation)
    → Preserves (AtLeast n) (reserve rep op)
reserve-AtLeast rep n op = record {
  from = λ db l. reserved_cases rep n op db l (reserve rep op db).0 (reserve rep op db).1 refl;
}
