-- ===== src/Store/Recovered.antt =====
-- The recovery of contacts lowers no attempt counter.
use hermes_life_bridge.Prelude.{ℕ, ◌≡◌, refl, sym, subst, List, [], ◌∷◌, String, some}
use hermes_life_bridge.Errors.{Result, ok, err, ok_inj, >>=-eq-ok}
use hermes_life_bridge.Exec.{transaction, settle-eq-ok, settle-eq-err}
use hermes_life_bridge.Exec.Preserves.{Preserves}
use hermes_life_bridge.Contract.{BridgeOperation, in_flight, contact, post_init}
use hermes_life_bridge.Store.Table.{Database, row_to_operation, list_rows}
use hermes_life_bridge.Store.Transition.{unknown_candidate, persist_transition}
use hermes_life_bridge.Store.Soundness.{persist_transition-eq-ok}
use hermes_life_bridge.Store.Recovery.{recover_contacts, recover_interrupted_contact_operations}
use hermes_life_bridge.Store.Attempts.{AtLeast, stepped-AtLeast}

module _ (n : String → ℕ) (at : String) where
  recover_contacts-AtLeast :
      (rows : List BridgeOperation) (db : Database)
      → AtLeast n db
      → {r : List BridgeOperation × Database} → recover_contacts at rows db ≡ ok r
      → AtLeast n r.1
  unfolding recover_contacts
  recover_contacts-AtLeast [] db l h =
      subst (λ (r : List BridgeOperation × Database). AtLeast n r.1) (ok_inj h) l
  recover_contacts-AtLeast (row ∷ rows) db l h =
      let (current, _, h1) = >>=-eq-ok (row_to_operation row) _ h in
      let (candidate, _, h2) =
        >>=-eq-ok (post_init (unknown_candidate at (some "process_restart_in_flight") current)) _
          h1 in
      let (stored, kept, h3) = >>=-eq-ok (persist_transition current candidate db) _ h2 in
      let (rest, recovered, e) = >>=-eq-ok (recover_contacts at rows stored.1) _ h3 in
      let (allowed, same) = persist_transition-eq-ok current candidate db kept in
      let after =
        subst (λ (r : BridgeOperation × Database). AtLeast n r.1) (sym same)
          (stepped-AtLeast current candidate allowed n db l) in
      subst (λ (r : List BridgeOperation × Database). AtLeast n r.1) (ok_inj e)
        (recover_contacts-AtLeast rows stored.1 after recovered)

  recovered_cases :
      (db : Database)
      → AtLeast n db
      → (r : Result (List BridgeOperation)) (db' : Database)
      → recover_interrupted_contact_operations at db ≡ (r, db')
      → AtLeast n db'
  unfolding recover_interrupted_contact_operations transaction
  recovered_cases db l (ok ops) db' h =
      recover_contacts-AtLeast (list_rows (some contact) (some in_flight) db) db l
        (settle-eq-ok db _ h)
  recovered_cases db l (err e) db' h = subst (λ d. AtLeast n d) (sym (settle-eq-err db _ h)) l

  pub recover-AtLeast : Preserves (AtLeast n) (recover_interrupted_contact_operations at)
  recover-AtLeast = record {
    from = λ db l.
        recovered_cases db l (recover_interrupted_contact_operations at db).0
          (recover_interrupted_contact_operations at db).1 refl;
  }
