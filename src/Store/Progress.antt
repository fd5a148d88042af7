-- ===== src/Store/Progress.antt =====
-- The methods that move one operation, on a sound store: what they do when admitted, when refused
-- and when the operation is missing, and that nothing else happens.
use hermes_life_bridge.Prelude.{◌≡◌, inl, inr, refl, sym, subst, Option, none, some, String}
use hermes_life_bridge.Errors.{Fault, Result, ok, err, state_conflict, >>=-eq-ok}
use hermes_life_bridge.Contract.{BridgeOperation, IsWellFormed}
use hermes_life_bridge.Store.Table.{Database, find_id, get, read_optional, row_to_operation}
use hermes_life_bridge.Store.Transition.{transition_transaction}
use hermes_life_bridge.Store.Lookup.{find_id-All}
use hermes_life_bridge.Store.Soundness.{
  IsSound, Moved, IsBuilder, stepped, transition_total, transition_effect, transition_rollback,
  load_for_update_found, row_to_operation_sound, row_to_operation-eq-ok,
}
use hermes_life_bridge.Store.Calls.{
  Call, build, call, call-transition_transaction, Admits, ArgumentsFit, outcome_of, build-eq-ok,
}
use hermes_life_bridge.Store.Admitted.{
  outcome_of-IsWellFormed, outcome_of-allowed, build_total, build_refused,
}

read_optional-eq-some :
    (o : Option BridgeOperation) {op : BridgeOperation}
    → read_optional o ≡ ok (some op)
    → o ≡ some op
read_optional-eq-some none h = cc
read_optional-eq-some (some row) h =
    let (made, read, same) = >>=-eq-ok (row_to_operation row) (λ op. ok (some op)) h in
    let (e, _) = row_to_operation-eq-ok row read in cc

-- What `get` returns is the row with the id.
pub get-eq-some :
    (id : String) (db : Database) {op : BridgeOperation}
    → get id db ≡ ok (some op)
    → find_id id db.operations ≡ some op
unfolding get
get-eq-some id db h = read_optional-eq-some (find_id id db.operations) h

-- On a sound store `get` returns a row that is there.
pub get_sound :
    (id : String) (db : Database) (op : BridgeOperation)
    → IsSound db
    → find_id id db.operations ≡ some op
    → get id db ≡ ok (some op)
unfolding get
get_sound id db op s found =
    rw
      (
        found,
        row_to_operation_sound op (find_id-All IsWellFormed id db.operations found s.well_formed),
      )
      refl

build-IsBuilder : (k : Call) (now : String) → IsBuilder (build k now)
build-IsBuilder k now = record {
  builds = λ c c' h. let (_, e, w) = build-eq-ok k now c c' h in subst IsWellFormed (sym e) w;
}

module _ (db : Database) (sound : IsSound db) (k : Call) (id now : String) where
  -- On a sound store, a transition method that the operation's state admits, with acceptable
  -- arguments, returns its foreseen outcome, writes it over that row alone, leaves the outbox and
  -- keeps the store sound.
  pub call_total :
      (c : BridgeOperation)
      → find_id id db.operations ≡ some c
      → Admits k c
      → ArgumentsFit k now
      → (db' : Database) × (call k id now db ≡ (ok (outcome_of k now c), db'))
        × Moved db db' id c (outcome_of k now c)
  call_total c found a f =
      let w =
        outcome_of-IsWellFormed now c
          (find_id-All IsWellFormed id db.operations found sound.well_formed) k a f in
      let t =
        transition_total db sound id (build k now) (build-IsBuilder k now) c (outcome_of k now c)
          found (build_total k now c a w) (outcome_of-allowed k now c a) in
      (stepped c (outcome_of k now c) db, rw call-transition_transaction t.0, t.1)

  -- Whatever one of the seven transition methods returns on a sound store, the operation's state
  -- admitted the method, the result is its foreseen outcome, only that row changed, the outbox did
  -- not, and the store is still sound.
  pub call_effect :
      {db' : Database} {c' : BridgeOperation}
      → call k id now db ≡ (ok c', db')
      → (c : BridgeOperation) × Admits k c × (c' ≡ outcome_of k now c) × Moved db db' id c c'
  call_effect {db'} {c'} h =
      let (c, built, moved) =
        transition_effect db sound id (build k now) (build-IsBuilder k now)
          (rw call-transition_transaction at h) in
      let (a, e, _) = build-eq-ok k now c c' built in (c, a, e, moved)

  -- On a sound store, a transition method that the stored operation's state does not admit raises
  -- OperationStateConflict and leaves the store as it was.
  pub call_refused :
      (c : BridgeOperation)
      → find_id id db.operations ≡ some c
      → ¬ Admits k c
      → (m : String) × (call k id now db ≡ (err (state_conflict m), db))
  unfolding transition_transaction
  call_refused c found n = elim (build_refused k now c) [
    | inl a ↦ absurd (n a)
    | inr (m, e) ↦
        (m, rw (call-transition_transaction, load_for_update_found db sound id c found, e))
  ]

  pub call_rollback : {db' : Database} {e : Fault} → call k id now db ≡ (err e, db') → db' ≡ db
  call_rollback h =
      transition_rollback db sound id (build k now) (build-IsBuilder k now)
        (rw call-transition_transaction at h)

  call_cases :
      (r : Result BridgeOperation) (db' : Database) → call k id now db ≡ (r, db') → IsSound db'
  call_cases (ok c') db' h = (call_effect h).3.still_sound
  call_cases (err e) db' h = subst IsSound (sym (call_rollback h)) sound

  -- Every transition method leaves a sound store sound, whether it returns or raises.
  pub call-IsSound : IsSound (call k id now db).1
  call-IsSound = call_cases (call k id now db).0 (call k id now db).1 refl
