-- ===== src/Store/Interrupted.antt =====
-- What the recovery of contacts does to the operations that it finds in flight.
use hermes_life_bridge.Prelude.{
  ◌≡◌, refl, sym, subst, ap, ◌∙◌, Bool, true, false, ◌&&◌, Option, none, some, List, [], ◌∷◌,
  String, ◌==◌, if◌then◌else◌, All, All-map, All-both, Distinct, All-select, All-order_by,
  Distinct-select, order_by-Distinct, order_by-All, Bool-cases, inl, inr, not_equal, eq_iff, select,
}
use hermes_life_bridge.Errors.{ok, >>=-eq-ok, ok_inj}
use hermes_life_bridge.Exec.{transaction, settle-eq-ok}
use hermes_life_bridge.Contract.{
  BridgeOperation, OperationState, in_flight, delivery_unknown, contact, post_init, post_init_iff,
  IsWellFormed, same_state, same_kind,
}
use hermes_life_bridge.Store.Table.{
  Database, find_id, row_to_operation, list_rows, created_before, fits_kind, fits_state,
}
use hermes_life_bridge.Store.Transition.{unknown_candidate, persist_transition}
use hermes_life_bridge.Store.Lookup.{same_id}
use hermes_life_bridge.Store.Soundness.{
  IsSound, persist_transition-eq-ok, row_to_operation-eq-ok, find_id-stepped, stepped-IsSound,
}
use hermes_life_bridge.Store.Retention.{IsFound, All-IsFound}
use hermes_life_bridge.Store.Recovery.{recover_contacts, recover_interrupted_contact_operations}

-- Whether the stored operation with an id is in a state.
abbrev pub is_stored_in : OperationState → Option BridgeOperation → Bool
is_stored_in state none = false
is_stored_in state (some op) = same_state op.state state

abbrev pub is_lost : String → Database → Bool
is_lost id db = is_stored_in delivery_unknown (find_id id db.operations)

abbrev pub ids_of : List BridgeOperation → List String
ids_of [] = []
ids_of (op ∷ ops) = op.operation_id ∷ ids_of ops

-- The ids of the contacts that are in flight, in the order of the listing.
abbrev pub interrupted : Database → List String
interrupted db = ids_of (list_rows (some contact) (some in_flight) db)

-- No operation but those with these ids changes, and the store stays sound.
pub record Confined (ids : List String) (db db' : Database) : Type 0 where
  pub sound : IsSound db'
  pub others :
      (j : String)
      → All (λ i. (i == j) ≡ false) ids
      → find_id j db'.operations ≡ find_id j db.operations

other_ids :
    (x : BridgeOperation) (xs : List BridgeOperation)
    → All (λ y. same_id y x ≡ false) xs
    → All (λ i. (i == x.operation_id) ≡ false) (ids_of xs)
other_ids x [] h = tt
other_ids x (y ∷ ys) h = (h.0, other_ids x ys h.1)

abbrev pub wanted : BridgeOperation → Bool
wanted r = fits_kind (some contact) r.kind && fits_state (some in_flight) r.state

ids_of-Distinct :
    (rows : List BridgeOperation)
    → Distinct same_id rows
    → Distinct (λ (a b : String). a == b) (ids_of rows)
ids_of-Distinct [] d = tt
ids_of-Distinct (x ∷ xs) d = (other_ids x xs d.0, ids_of-Distinct xs d.1)

pub listed-Distinct :
    (db : Database) → IsSound db → Distinct same_id (list_rows (some contact) (some in_flight) db)
unfolding list_rows
listed-Distinct db s =
    order_by-Distinct created_before same_id (λ x y k. not_equal y.operation_id x.operation_id k) _
      (Distinct-select wanted same_id db.operations s.ids)

pub interrupted-Distinct :
    (db : Database) → IsSound db → Distinct (λ (a b : String). a == b) (interrupted db)
interrupted-Distinct db s =
    ids_of-Distinct (list_rows (some contact) (some in_flight) db) (listed-Distinct db s)

apart :
    (id : String) (rows : List BridgeOperation)
    → All (λ i. (i == id) ≡ false) (ids_of rows)
    → All (λ (r : BridgeOperation). (r.operation_id == id) ≡ false) rows
apart id [] h = tt
apart id (r ∷ rows) h = (h.0, apart id rows h.1)

clash : {b : Bool} → b ≡ true → b ≡ false → ⊥
clash p q = cc

-- A row that is found and wanted is selected.
selected :
    (id : String) (op : BridgeOperation) (rows : List BridgeOperation)
    → find_id id rows ≡ some op
    → wanted op ≡ true
    → All (λ (r : BridgeOperation). (r.operation_id == id) ≡ false) (select wanted rows)
    → ⊥
unfolding find_id select
selected id op [] found w h = cc
selected id op (x ∷ xs) found w h = elim (Bool-cases (x.operation_id == id)) [
  | inl here ↦
      let same = some_inj (rw here at found) in
      let w' : wanted x ≡ true = subst (λ o. wanted o ≡ true) (sym same) w in
      clash here (rw w' at h).0
  | inr there ↦ selected id op xs (rw there at found) w (rest (wanted x) h)
]
  where
    some_inj : {a b : BridgeOperation} → some a ≡ some b → a ≡ b
    some_inj e = cc

    rest :
        (b : Bool)
        → All
            (λ (r : BridgeOperation). (r.operation_id == id) ≡ false)
            (if b then x ∷ select wanted xs else select wanted xs)
        → All (λ (r : BridgeOperation). (r.operation_id == id) ≡ false) (select wanted xs)
    rest true h = h.1
    rest false h = h

-- A contact in flight is among the interrupted.
pub interrupted_all :
    (id : String) (op : BridgeOperation) (db : Database)
    → find_id id db.operations ≡ some op
    → op.kind ≡ contact
    → op.state ≡ in_flight
    → All (λ i. (i == id) ≡ false) (interrupted db)
    → ⊥
unfolding list_rows same_kind same_state
interrupted_all id op db found k u h = selected id op db.operations found (rw (k, u) refl) (
    order_by-All created_before (λ (r : BridgeOperation). (r.operation_id == id) ≡ false) _
      (apart id (list_rows (some contact) (some in_flight) db) h))

-- One row was written over, with its id, and is lost now.
pub record Recovers (id : String) (db db' : Database) (op : BridgeOperation) : Type 0 where
  pub same_id_kept : op.operation_id ≡ id
  pub lost : op.state ≡ delivery_unknown
  pub rows :
      (j : String)
      → find_id j db'.operations ≡ (if id == j then some op else find_id j db.operations)
  pub sound : IsSound db'

lost_now :
    (op : BridgeOperation) (o : Option BridgeOperation)
    → o ≡ some op
    → op.state ≡ delivery_unknown
    → is_stored_in delivery_unknown o ≡ true
unfolding same_state
lost_now op o e u = rw (e, u) refl

module _ (at : String) where
  abbrev pub recovered_as : BridgeOperation → BridgeOperation
  recovered_as op = unknown_candidate at (some "process_restart_in_flight") op

  pub recover_one :
      (row : BridgeOperation) (db : Database)
      → IsSound db
      → find_id row.operation_id db.operations ≡ some row
      → {current candidate : BridgeOperation} {r : BridgeOperation × Database}
      → row_to_operation row ≡ ok current
      → post_init (recovered_as current) ≡ ok candidate
      → persist_transition current candidate db ≡ ok r
      → Recovers row.operation_id db r.1 r.0
  recover_one row db s found {current} {candidate} {r} read built kept =
      let (same, _) = row_to_operation-eq-ok row read in
      let (well, made) = (post_init_iff (recovered_as current) candidate).0 built in
      let (allowed, e) = persist_transition-eq-ok current candidate db kept in
      let current_found : find_id row.operation_id db.operations ≡ some current =
        found ∙ ap some (sym same) in
      subst (λ (x : BridgeOperation × Database). Recovers row.operation_id db x.1 x.0) (sym e)
        (record {
          same_id_kept =
              ap (λ (o : BridgeOperation). o.operation_id) made
              ∙ ap (λ (o : BridgeOperation). o.operation_id) same;
          lost = ap (λ (o : BridgeOperation). o.state) made;
          rows = find_id-stepped db s row.operation_id current current_found candidate allowed;
          sound =
              stepped-IsSound db s row.operation_id current current_found candidate allowed
                (subst IsWellFormed (sym made) well);
        })

  pub still_found :
      (row : BridgeOperation) (rows : List BridgeOperation) (db db' : Database)
      (op : BridgeOperation)
      → Recovers row.operation_id db db' op
      → All (λ y. same_id y row ≡ false) rows
      → All (λ (y : BridgeOperation). find_id y.operation_id db.operations ≡ some y) rows
      → All (λ (y : BridgeOperation). find_id y.operation_id db'.operations ≡ some y) rows
  still_found row rows db db' op one d f =
      All-map
        {P = λ (y : BridgeOperation).
          (same_id y row ≡ false) × (find_id y.operation_id db.operations ≡ some y)}
        rows
        (λ y k. one.rows y.operation_id ∙ rw (not_equal row.operation_id y.operation_id k.0) k.1)
        (All-both (λ y. same_id y row ≡ false)
          (λ (y : BridgeOperation). find_id y.operation_id db.operations ≡ some y) rows d f)

  -- Every row that is recovered is lost afterwards.
  recover_contacts_effect :
      (rows : List BridgeOperation) (db : Database)
      → IsSound db
      → Distinct same_id rows
      → All (λ (r : BridgeOperation). find_id r.operation_id db.operations ≡ some r) rows
      → {r : List BridgeOperation × Database} → recover_contacts at rows db ≡ ok r
      → (ids_of r.0 ≡ ids_of rows)
        × Confined (ids_of rows) db r.1
        × All (λ i. is_lost i r.1 ≡ true) (ids_of rows)
  unfolding recover_contacts
  recover_contacts_effect [] db s d f h =
      subst
        (λ (r : List BridgeOperation × Database). (ids_of r.0 ≡ []) × Confined [] db r.1 × Unit {0})
        (ok_inj h) (refl, record { sound = s; others = λ j _. refl }, tt)
  recover_contacts_effect (row ∷ rows) db s d f {r} h =
      let (current, read, h1) = >>=-eq-ok (row_to_operation row) _ h in
      let (candidate, built, h2) = >>=-eq-ok (post_init (recovered_as current)) _ h1 in
      let (stored, kept, h3) = >>=-eq-ok (persist_transition current candidate db) _ h2 in
      let (rest, recovered, e) = >>=-eq-ok (recover_contacts at rows stored.1) _ h3 in
      let one = recover_one row db s f.0 read built kept in
      let untouched = still_found row rows db stored.1 stored.0 one d.0 f.1 in
      let (ids, confined, lost) =
        recover_contacts_effect rows stored.1 one.sound d.1 untouched recovered in
      subst
        (λ (x : List BridgeOperation × Database).
          (ids_of x.0 ≡ ids_of (row ∷ rows))
          × Confined (ids_of (row ∷ rows)) db x.1
          × All (λ i. is_lost i x.1 ≡ true) (ids_of (row ∷ rows)))
        (ok_inj e)
        (
          ap2_cons one.same_id_kept ids,
          record {
            sound = confined.sound;
            others = λ j k. confined.others j k.1 ∙ one.rows j ∙ rw k.0 refl;
          },
          (
            lost_now stored.0 _
                (confined.others row.operation_id (other_ids row rows d.0)
                  ∙ one.rows row.operation_id
                  ∙ rw ((eq_iff row.operation_id row.operation_id).1 refl) refl)
                one.lost,
            lost,
          ),
        )
    where
      ap2_cons : {x y : String} {xs ys : List String} → x ≡ y → xs ≡ ys → x ∷ xs ≡ y ∷ ys
      ap2_cons p q = rw (p, q) refl

  -- The recovery returns the operations that were in flight, which are lost afterwards, and changes no
  -- other.
  pub recover_interrupted_effect :
      (db : Database)
      → IsSound db
      → {ops : List BridgeOperation} {db' : Database}
      → recover_interrupted_contact_operations at db ≡ (ok ops, db')
      → (ids_of ops ≡ interrupted db)
        × Confined (interrupted db) db db'
        × All (λ i. is_lost i db' ≡ true) (interrupted db)
  unfolding recover_interrupted_contact_operations transaction list_rows IsFound
  recover_interrupted_effect db s {ops} {db'} h =
      recover_contacts_effect (list_rows (some contact) (some in_flight) db) db s
        (listed-Distinct db s)
        (All-order_by (λ (r : BridgeOperation). find_id r.operation_id db.operations ≡ some r)
          created_before _ (All-select _ wanted db.operations (All-IsFound db.operations s.ids)))
        {r = (ops, db')} (settle-eq-ok db _ h)
