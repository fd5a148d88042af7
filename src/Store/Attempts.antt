-- ===== src/Store/Attempts.antt =====
-- No method of the store lowers an operation's attempt counter or loses its row.
use hermes_life_bridge.Prelude.{
  ℕ, ◌≤◌, ◌≡◌, refl, sym, ap, subst, ◌∙◌, true, Option, none, some, List, [], ◌∷◌, String,
  update_where, arith, ◌==◌, eq_iff, if◌then◌else◌, Distinct, Distinct-update_where,
}
use hermes_life_bridge.Errors.{Result, ok, err, >>=-eq-ok, ◌>>=◌}
use hermes_life_bridge.Exec.{settle-eq-ok, settle-eq-err}
use hermes_life_bridge.Exec.Preserves.{Preserves}
use hermes_life_bridge.Contract.{BridgeOperation, is_operation_transition_allowed, allowed_iff}
use hermes_life_bridge.Store.Table.{Database, find_id, load_for_update}
use hermes_life_bridge.Store.Transition.{
  is_version, set_columns, persist_transition, transition_body, transition_transaction,
}
use hermes_life_bridge.Store.Lookup.{same_id, find_id-update_where}
use hermes_life_bridge.Store.Soundness.{
  stepped, load_for_update-eq-ok, persist_transition-eq-ok, set_columns-SameIdentity,
}
use hermes_life_bridge.Store.Calls.{
  Call, build, build-eq-ok, outcome_of, call, call-transition_transaction,
}

abbrev pub attempts_of : Option BridgeOperation → ℕ
attempts_of none = 0
attempts_of (some op) = op.attempt

-- The attempts of the stored operation with an id, none where there is no such operation.
abbrev pub tried : String → Database → ℕ
tried id db = attempts_of (find_id id db.operations)

-- Ids are unique, and every operation has had at least `n` of its id attempts.
pub record AtLeast (n : String → ℕ) (db : Database) : Type 0 where
  pub ids : Distinct same_id db.operations
  pub reached : (id : String) → n id ≤ tried id db

attempt-allowed :
    (c c' : BridgeOperation) → is_operation_transition_allowed c c' ≡ true → c.attempt ≤ c'.attempt
unfolding is_operation_transition_allowed
attempt-allowed c c' h = ground arith

module _ (c c' : BridgeOperation) (allowed : is_operation_transition_allowed c c' ≡ true) where
  -- An allowed write lowers no counter, whichever rows it hits.
  rises :
      (j : String) (rows : List BridgeOperation)
      → attempts_of (find_id j rows)
        ≤ attempts_of (find_id j (update_where (is_version c) (set_columns c') rows))
  unfolding find_id update_where is_version
  rises j [] = omega arith
  rises j (x ∷ xs) = ground (arith, attempt-allowed c c' allowed, rises j xs)

  pub stepped-AtLeast :
      (n : String → ℕ) (db : Database) → AtLeast n db → AtLeast n (stepped c c' db)
  stepped-AtLeast n db l = record {
    ids =
        Distinct-update_where (is_version c) (set_columns c') same_id (λ x y. refl) (λ x y. refl)
          db.operations l.ids;
    reached = λ j. omega (arith, l.reached j, rises j db.operations);
  }

module _ (db : Database) (ids : Distinct same_id db.operations) (id : String)
    (c c' : BridgeOperation) (found : find_id id db.operations ≡ some c)
    (allowed : is_operation_transition_allowed c c' ≡ true) where
  find_id-stepped :
      (j : String)
      → find_id j (stepped c c' db).operations
        ≡ (if id == j then some c' else find_id j db.operations)
  find_id-stepped j =
      find_id-update_where c c' id j db.operations ids found
      ∙ ap (λ (r : BridgeOperation). if id == j then some r else find_id j db.operations)
          (set_columns-SameIdentity c c' ((allowed_iff c c').0 allowed).0)

  tried-stepped : tried id (stepped c c' db) ≡ c'.attempt
  tried-stepped = rw (find_id-stepped id, (eq_iff id id).1 refl) refl

module _ (n : String → ℕ) (id : String) (build : BridgeOperation → Result BridgeOperation)
    (db : Database) (least : AtLeast n db) where
  -- What a transaction that returned has done, where no more is known of the store than its ids.
  transition_step :
      {db' : Database} {c' : BridgeOperation}
      → transition_transaction id build db ≡ (ok c', db')
      → (c : BridgeOperation) × (find_id id db.operations ≡ some c)
        × (build c ≡ ok c')
        × (tried id db' ≡ c'.attempt)
        × AtLeast n db'
  unfolding transition_transaction
  transition_step {db'} {c'} h =
      let returned = settle-eq-ok db (transition_body id build db) h in
      let (c, loaded, rest) =
        >>=-eq-ok (load_for_update id db) (λ c. build c >>= λ c'. persist_transition c c' db)
          returned in
      let (made, built, stored) = >>=-eq-ok (build c) (λ c'. persist_transition c c' db) rest in
      let (allowed, e) = persist_transition-eq-ok c made db stored in
      let found = load_for_update-eq-ok id db loaded in
      let same : made ≡ c' = ap (λ (r : BridgeOperation × Database). r.0) (sym e) in
      let after : stepped c made db ≡ db' = ap (λ (r : BridgeOperation × Database). r.1) (sym e) in
      (
        c,
        found,
        subst (λ d. build c ≡ ok d) same built,
        subst (λ (d : Database). tried id d ≡ c'.attempt) after
            (tried-stepped db least.ids id c made found allowed
              ∙ ap (λ (r : BridgeOperation). r.attempt) same),
        subst (λ d. AtLeast n d) after (stepped-AtLeast c made allowed n db least),
      )

  transition_cases :
      (r : Result BridgeOperation) (db' : Database)
      → transition_transaction id build db ≡ (r, db')
      → AtLeast n db'
  unfolding transition_transaction
  transition_cases (ok c') db' h = (transition_step h).4
  transition_cases (err e) db' h =
      subst (λ d. AtLeast n d) (sym (settle-eq-err db (transition_body id build db) h)) least

module _ (n : String → ℕ) where
  -- Whatever a method that moves one operation does, ids stay unique and no counter falls.
  pub call-AtLeast : (k : Call) (id now : String) → Preserves (AtLeast n) (call k id now)
  call-AtLeast k id now = record {
    from = λ db l. rw (call-transition_transaction k id now) (
        transition_cases n id (build k now) db l (transition_transaction id (build k now) db).0
          (transition_transaction id (build k now) db).1 refl);
  }

  -- A method that returned its foreseen outcome leaves the counter of that outcome.
  pub call-tried :
      (k : Call) (id now : String) (db : Database)
      → AtLeast n db
      → {db' : Database} {c' : BridgeOperation} → call k id now db ≡ (ok c', db')
      → (c : BridgeOperation) × (find_id id db.operations ≡ some c)
        × (c' ≡ outcome_of k now c)
        × (tried id db' ≡ c'.attempt)
        × AtLeast n db'
  call-tried k id now db l {db'} {c'} h =
      let (c, found, built, t, l') =
        transition_step n id (build k now) db l (rw (call-transition_transaction k id now) at h) in
      (c, found, (build-eq-ok k now c c' built).1, t, l')
