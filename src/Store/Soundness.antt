-- ===== src/Store/Soundness.antt =====
-- The store's invariant, and what a transaction of one operation does to it.
use hermes_life_bridge.Prelude.{
  ◌≡◌, refl, ap, sym, subst, ◌∙◌, Bool, true, ◌&&◌, Option, none, some, String, arith, ◌==◌,
  if◌then◌else◌, All, Distinct, update_where, Distinct-update_where,
}
use hermes_life_bridge.Errors.{Fault, Result, ok, err, corruption, rethrow, ◌>>=◌, >>=-eq-ok}
use hermes_life_bridge.Exec.{settle-eq-ok, settle-eq-err}
use hermes_life_bridge.Contract.{
  BridgeOperation, same_kind, post_init, post_init_iff, IsWellFormed,
  is_operation_transition_allowed, SameIdentity, allowed_iff,
}
use hermes_life_bridge.Store.Table.{Database, find_id, row_to_operation, load_for_update, load_row}
use hermes_life_bridge.Store.Transition.{
  is_version, set_columns, persist_transition, transition_body, transition_transaction,
}
use hermes_life_bridge.Store.Lookup.{
  same_id, find_id-All, count_where-is_version, find_id-update_where, All-update_row,
}

abbrev pub same_key : BridgeOperation → BridgeOperation → Bool
same_key a b = same_kind a.kind b.kind && a.idempotency_key == b.idempotency_key

-- Every row is one that the constructor accepts, and both keys of the table are unique.
pub record IsSound (db : Database) : Type 0 where
  pub well_formed : All IsWellFormed db.operations
  pub ids : Distinct same_id db.operations
  pub keys : Distinct same_key db.operations

-- The store after a candidate is written over the operation that it was built from.
abbrev pub stepped : BridgeOperation → BridgeOperation → Database → Database
stepped current candidate db = record db {
  operations = update_where (is_version current) (set_columns candidate) db.operations;
}

pub row_to_operation_sound :
    (row : BridgeOperation) → IsWellFormed row → row_to_operation row ≡ ok row
unfolding row_to_operation
row_to_operation_sound row w = rw ((post_init_iff row row).1 (w, refl))

pub row_to_operation-eq-ok :
    (row : BridgeOperation) {op : BridgeOperation}
    → row_to_operation row ≡ ok op
    → (op ≡ row) × IsWellFormed row
unfolding row_to_operation
row_to_operation-eq-ok row {op} h =
    let (w, e) = (post_init_iff row op).0 (unwrap (post_init row) h) in (e, w)
  where
    unwrap :
        (r : Result BridgeOperation)
        → rethrow r (corruption "invalid_bridge_operation_row") ≡ ok op
        → r ≡ ok op
    unwrap (ok a) g = g
    unwrap (err e) g = cc

pub load_for_update-eq-ok :
    (id : String) (db : Database) {op : BridgeOperation}
    → load_for_update id db ≡ ok op
    → find_id id db.operations ≡ some op
unfolding load_for_update
load_for_update-eq-ok id db {op} h = found (find_id id db.operations) h
  where
    found : (o : Option BridgeOperation) → load_row o ≡ ok op → o ≡ some op
    found none g = cc
    found (some row) g = ap some (sym (row_to_operation-eq-ok row g).0)

pub persist_transition-eq-ok :
    (current candidate : BridgeOperation) (db : Database) {r : BridgeOperation × Database}
    → persist_transition current candidate db ≡ ok r
    → (is_operation_transition_allowed current candidate ≡ true)
      × (r ≡ (candidate, stepped current candidate db))
unfolding persist_transition
persist_transition-eq-ok current candidate db h = ground arith

-- A candidate with the identity of a row is what the UPDATE makes of the row.
pub set_columns-SameIdentity :
    (current candidate : BridgeOperation)
    → SameIdentity current candidate
    → set_columns candidate current ≡ candidate
set_columns-SameIdentity current candidate i = ground arith

module _ (db : Database) (sound : IsSound db) (id : String) (current : BridgeOperation)
    (found : find_id id db.operations ≡ some current) where
  pub load_for_update_found : load_for_update id db ≡ ok current
  unfolding load_for_update
  load_for_update_found = rw found (
      row_to_operation_sound current
        (find_id-All IsWellFormed id db.operations found sound.well_formed))

  module _ (candidate : BridgeOperation)
      (allowed : is_operation_transition_allowed current candidate ≡ true) where
    pub persist_transition_total :
        persist_transition current candidate db ≡ ok (candidate, stepped current candidate db)
    unfolding persist_transition
    persist_transition_total =
        rw (allowed, count_where-is_version current id db.operations sound.ids found)

    written : set_columns candidate current ≡ candidate
    written =
        set_columns-SameIdentity current candidate ((allowed_iff current candidate).0 allowed).0

    -- The write changes the one row, to the candidate.
    pub find_id-stepped :
        (j : String)
        → find_id j (stepped current candidate db).operations
          ≡ (if id == j then some candidate else find_id j db.operations)
    find_id-stepped j =
        find_id-update_where current candidate id j db.operations sound.ids found
        ∙ ap (λ (r : BridgeOperation). if id == j then some r else find_id j db.operations) written

    pub stepped-IsSound : IsWellFormed candidate → IsSound (stepped current candidate db)
    stepped-IsSound w =
        let test = is_version current in
        let write = set_columns candidate in
        record {
          well_formed =
              All-update_row current IsWellFormed candidate id db.operations sound.ids found
                (subst IsWellFormed (sym written) w) sound.well_formed;
          ids =
              Distinct-update_where test write same_id (λ x y. refl) (λ x y. refl) db.operations
                sound.ids;
          keys =
              Distinct-update_where test write same_key (λ x y. refl) (λ x y. refl) db.operations
                sound.keys;
        }

-- The row of `id` went from `current` to `candidate` by a guarded transition, and no other row
-- and no outbox entry changed.
pub record Moved (db db' : Database) (id : String) (current candidate : BridgeOperation)
    : Type 0 where
  pub was : find_id id db.operations ≡ some current
  pub allowed : is_operation_transition_allowed current candidate ≡ true
  pub rows :
      (j : String)
      → find_id j db'.operations ≡ (if id == j then some candidate else find_id j db.operations)
  pub outbox_kept : db'.outbox ≡ db.outbox
  pub still_sound : IsSound db'

-- A builder returns only what the constructor accepts.
pub record IsBuilder (build : BridgeOperation → Result BridgeOperation) : Type 0 where
  pub builds : (c c' : BridgeOperation) → build c ≡ ok c' → IsWellFormed c'

module _ (db : Database) (sound : IsSound db) (id : String)
    (build : BridgeOperation → Result BridgeOperation) (builder : IsBuilder build) where
  -- A transaction whose candidate is allowed commits it.
  pub transition_total :
      (current candidate : BridgeOperation)
      → find_id id db.operations ≡ some current
      → build current ≡ ok candidate
      → is_operation_transition_allowed current candidate ≡ true
      → (transition_transaction id build db ≡ (ok candidate, stepped current candidate db))
        × Moved db (stepped current candidate db) id current candidate
  unfolding transition_transaction
  transition_total current candidate found built allowed = (
    rw (
      load_for_update_found db sound id current found,
      built,
      persist_transition_total db sound id current found candidate allowed,
    ),
    record {
      was = found;
      allowed = allowed;
      rows = find_id-stepped db sound id current found candidate allowed;
      outbox_kept = refl;
      still_sound =
          stepped-IsSound db sound id current found candidate allowed
            (builder.builds current candidate built);
    },
  )

  -- Whatever a transaction returns, it got by a guarded transition of the operation.
  pub transition_effect :
      {db' : Database} {candidate : BridgeOperation}
      → transition_transaction id build db ≡ (ok candidate, db')
      → (current : BridgeOperation) × (build current ≡ ok candidate)
        × Moved db db' id current candidate
  unfolding transition_transaction
  transition_effect {db'} {candidate} h =
      let returned = settle-eq-ok db (transition_body id build db) h in
      let (current, loaded, rest) =
        >>=-eq-ok (load_for_update id db) (λ c. build c >>= λ c'. persist_transition c c' db)
          returned in
      let (made, built, stored) =
        >>=-eq-ok (build current) (λ c'. persist_transition current c' db) rest in
      let (allowed, e) = persist_transition-eq-ok current made db stored in
      let same : made ≡ candidate = ap (λ (r : BridgeOperation × Database). r.0) (sym e) in
      let after : stepped current made db ≡ db' =
        ap (λ (r : BridgeOperation × Database). r.1) (sym e) in
      let found = load_for_update-eq-ok id db loaded in
      (
        current,
        rw same at built,
        subst (λ d. Moved db d id current candidate) after
            (subst (λ c. Moved db (stepped current made db) id current c) same
              (transition_total current made found built allowed).1),
      )

  -- A transaction that raises leaves the store as it was.
  pub transition_rollback :
      {db' : Database} {e : Fault} → transition_transaction id build db ≡ (err e, db') → db' ≡ db
  unfolding transition_transaction
  transition_rollback h = settle-eq-err db (transition_body id build db) h
