-- ===== src/Contact/Reconciled.antt =====
-- What a reconciliation leaves of a lost operation, whatever the evidence is and whatever it raises.
use hermes_life_bridge.Prelude.{
  ◌≡◌, refl, sym, subst, ap, ◌∙◌, Bool, true, false, Option, none, some, [], ◌∷◌, String, arith,
  eq_iff,
}
use hermes_life_bridge.Errors.{Result, ok, err}
use hermes_life_bridge.Exec.{pure, continue}
use hermes_life_bridge.Contract.{BridgeOperation, delivery_unknown, in_flight, same_state}
use hermes_life_bridge.Store.{
  Database, find_id, operation_id-find_id, IsSound, Call, completing, call, call_effect,
  call_rollback, outcome_of, get_sound, is_stored_in, is_lost, Confined,
}
use hermes_life_bridge.Contact.Evidence.{
  ContactEvidenceOutcome, was_delivered, not_delivered, still_unknown, same_outcome,
  ContactEvidence,
}
use hermes_life_bridge.Contact.Reconciler.{
  Stores, EvidenceProbe, ContactReconciliationResult, collect_evidence, settle_by, reconcile,
}
use hermes_life_bridge.Contact.Resolved.{
  collect_evidence-Untouched, Settles, by_delivery, by_non_delivery,
}

-- Whether the operation counts as unknown after a reconciliation.
abbrev pub left_unknown : Result ContactReconciliationResult → Bool
left_unknown (ok r) = same_outcome r.evidence.outcome still_unknown
left_unknown (err e) = true

-- Only the operation with the id may have changed, it is not in flight, and it is lost or not.
pub record Tried (id : String) (db db' : Database) (lost : Bool) : Type 0 where
  pub confined : Confined (id ∷ []) db db'
  pub lost_or_not : is_lost id db' ≡ lost
  pub landed : is_stored_in in_flight (find_id id db'.operations) ≡ false

lost_found :
    (o : Option BridgeOperation)
    → is_stored_in delivery_unknown o ≡ true
    → (op : BridgeOperation) × (o ≡ some op)
lost_found none h = cc
lost_found (some op) h = (op, refl)

lost_not_in_flight :
    (o : Option BridgeOperation)
    → is_stored_in delivery_unknown o ≡ true
    → is_stored_in in_flight o ≡ false
unfolding same_state
lost_not_in_flight none h = refl
lost_not_in_flight (some op) h = ground arith

unchanged-Tried :
    (id : String) (db : Database) → IsSound db → is_lost id db ≡ true → Tried id db db true
unchanged-Tried id db s lost = record {
  confined = record { sound = s; others = λ j _. refl };
  lost_or_not = lost;
  landed = lost_not_in_flight (find_id id db.operations) lost;
}

-- Where decisive evidence takes an operation, it is neither lost nor in flight.
settled_state :
    {o : ContactEvidenceOutcome} (k : Call) (at : String) (c : BridgeOperation)
    → Settles o k
    → (same_state (outcome_of k at c).state delivery_unknown ≡ false)
      × (same_state (outcome_of k at c).state in_flight ≡ false)
      × (same_outcome o still_unknown ≡ false)
unfolding same_state same_outcome
settled_state completing at c by_delivery = (refl, refl, refl)
settled_state _ at c by_non_delivery = (refl, refl, refl)

module _ (sanitize : String → String) (probe : EvidenceProbe) (now id at : String) (s : Stores)
    (sound : IsSound s.operations) (lost : is_lost id s.operations ≡ true) where
  abbrev TriedTo : Result ContactReconciliationResult × Stores → Type 0
  TriedTo r = Tried id s.operations r.1.operations (left_unknown r.0)

  module _ (op : BridgeOperation) (found : find_id id s.operations.operations ≡ some op) where
    module _ (e : ContactEvidence) (s' : Stores) (kept : s'.operations ≡ s.operations) where
      -- What follows the call that settles the operation.
      abbrev resumed :
          Result BridgeOperation × Database → Result ContactReconciliationResult × Stores
      resumed x =
          continue x.0 (λ c. pure (record { operation = c; evidence = e; changed = true }))
            (record s' { operations = x.1 })

      settle_by-call :
          {o : ContactEvidenceOutcome} (k : Call)
          → Settles o k
          → settle_by sanitize probe now o at op e s'
            ≡ resumed (call k op.operation_id at s'.operations)
      unfolding call
      settle_by-call completing by_delivery = refl
      settle_by-call _ by_non_delivery = refl

      resumed-Tried :
          {o : ContactEvidenceOutcome} (k : Call)
          → Settles o k
          → e.outcome ≡ o
          → (x : Result BridgeOperation × Database) → call k id at s.operations ≡ x
          → TriedTo (resumed x)
      resumed-Tried k by same (err f, db') h =
          subst (λ d. Tried id s.operations d true)
            (sym (call_rollback s.operations sound k id at h))
            (unchanged-Tried id s.operations sound lost)
      resumed-Tried k by same (ok c', db') h =
          let (c, _, made, moved) = call_effect s.operations sound k id at h in
          let (not_lost, not_started, decided) = settled_state k at c by in
          let stored : find_id id db'.operations ≡ some c' =
            moved.rows id ∙ rw ((eq_iff id id).1 refl) refl in
          record {
            confined = record {
              sound = moved.still_sound;
              others = λ j other. moved.rows j ∙ rw other.0 refl;
            };
            lost_or_not = rw (stored, made, not_lost, same, decided) refl;
            landed = rw (stored, made, not_started) refl;
          }

      same_call : (k : Call) → call k op.operation_id at s'.operations ≡ call k id at s.operations
      same_call k =
          ap (λ i. call k i at s'.operations)
            (operation_id-find_id id s.operations.operations op found)
          ∙ ap (λ d. call k id at d) kept

      decided-Tried :
          {o : ContactEvidenceOutcome} (k : Call)
          → Settles o k
          → e.outcome ≡ o
          → TriedTo (settle_by sanitize probe now o at op e s')
      decided-Tried k by same =
          subst TriedTo (sym (settle_by-call k by ∙ ap resumed (same_call k)))
            (resumed-Tried k by same (call k id at s.operations) refl)

      settled-Tried :
          (o : ContactEvidenceOutcome)
          → e.outcome ≡ o
          → TriedTo (settle_by sanitize probe now o at op e s')
      unfolding same_outcome
      settled-Tried still_unknown same =
          rw (kept, same) (unchanged-Tried id s.operations sound lost)
      settled-Tried was_delivered same = decided-Tried completing by_delivery same
      settled-Tried not_delivered same = decided-Tried _ by_non_delivery same

    by_evidence :
        (c : Result ContactEvidence) (s' : Stores)
        → s'.operations ≡ s.operations
        → TriedTo (continue c (λ e. settle_by sanitize probe now e.outcome at op e) s')
    by_evidence (err f) s' kept =
        subst (λ d. Tried id s.operations d true) (sym kept)
          (unchanged-Tried id s.operations sound lost)
    by_evidence (ok e) s' kept = settled-Tried e s' kept e.outcome refl

    to_evidence :
        reconcile sanitize probe now id at s
        ≡ continue
            (collect_evidence sanitize probe now op s).0
            (λ e. settle_by sanitize probe now e.outcome at op e)
            (collect_evidence sanitize probe now op s).1
    unfolding reconcile
    to_evidence = rw (get_sound id s.operations op sound found) refl

  -- A reconciliation of a lost operation on a sound store changes nothing else, and leaves the
  -- operation lost exactly if it raises or its evidence is unknown.
  pub reconcile-Tried : TriedTo (reconcile sanitize probe now id at s)
  reconcile-Tried =
      let (op, found) = lost_found (find_id id s.operations.operations) lost in
      subst TriedTo (sym (to_evidence op found)) (
        by_evidence op found (collect_evidence sanitize probe now op s).0
          (collect_evidence sanitize probe now op s).1
          ((collect_evidence-Untouched sanitize probe now s.operations op).from s refl))
