-- ===== src/Contact/Resolved.antt =====
-- What a reconciliation does to an operation whose delivery is unknown.
use hermes_life_bridge.Prelude.{
  ◌≡◌, refl, sym, subst, ◌∙◌, true, false, Option, none, some, String, is_blank, is_safe_token,
  arith,
}
use hermes_life_bridge.Errors.{Result, ok}
use hermes_life_bridge.Exec.{Exec, lift, reads, pure}
use hermes_life_bridge.Exec.Preserves.{Preserves, Preserves-lift, Preserves-pure, Preserves-bind}
use hermes_life_bridge.Contract.{delivery_unknown, BridgeOperation}
use hermes_life_bridge.Store.{
  Database, find_id, operation_id-find_id, IsSound, Moved, Call, completing, failing, call,
  outcome_of, Admits, ArgumentsFit, call_total, get_sound,
}
use hermes_life_bridge.Contact.Evidence.{
  ContactEvidenceOutcome, was_delivered, not_delivered, still_unknown, ContactEvidence, check_lost,
}
use hermes_life_bridge.Contact.Tables.{ContactTables}
use hermes_life_bridge.Contact.Reconciler.{
  Stores, EvidenceProbe, on_contacts, local_evidence, save_unless_unknown, ask_probe,
  local_or_probe, collect_evidence, settle_by, reconcile,
}

module _ (sanitize : String → String) (probe : EvidenceProbe) (now : String) (db : Database) where
  abbrev Untouched : Stores → Type 0
  Untouched s = s.operations ≡ db

  on_contacts-Untouched :
      {A : Type 0} (m : Exec ContactTables A) → Preserves Untouched (on_contacts m)
  on_contacts-Untouched m = record { from = λ s e. e }

  save-Untouched :
      (o : ContactEvidenceOutcome) (op : BridgeOperation) (e : ContactEvidence)
      → Preserves Untouched (save_unless_unknown sanitize probe now o op e)
  save-Untouched still_unknown op e = Preserves-pure tt
  save-Untouched was_delivered op e = record { from = λ s h. h }
  save-Untouched not_delivered op e = record { from = λ s h. h }

  ask_probe-Untouched :
      (p : EvidenceProbe) (op : BridgeOperation)
      → Preserves Untouched (ask_probe sanitize probe now p op)
  ask_probe-Untouched none op = Preserves-lift _
  ask_probe-Untouched (some ask) op =
      Preserves-bind (lift (ask op)) _ (Preserves-lift (ask op)) (λ e.
        Preserves-bind (save_unless_unknown sanitize probe now e.outcome op e) (λ _. pure e)
          (save-Untouched e.outcome op e) (λ _. Preserves-pure e))

  local_or_probe-Untouched :
      (found : Option ContactEvidence) (op : BridgeOperation)
      → Preserves Untouched (local_or_probe sanitize probe now found op)
  local_or_probe-Untouched (some e) op = Preserves-pure e
  local_or_probe-Untouched none op = ask_probe-Untouched probe op

  -- Evidence is collected without a change to the operations.
  pub collect_evidence-Untouched :
      (op : BridgeOperation) → Preserves Untouched (collect_evidence sanitize probe now op)
  unfolding collect_evidence
  collect_evidence-Untouched op =
      Preserves-bind (lift (check_lost op)) _ (Preserves-lift (check_lost op)) (λ _.
        Preserves-bind (on_contacts (reads (local_evidence op))) _
          (on_contacts-Untouched (reads (local_evidence op)))
          (λ found. local_or_probe-Untouched found op))

-- How decisive evidence settles an operation.
pub data Settles : ContactEvidenceOutcome → Call → Type 0 where
  by_delivery : Settles was_delivered completing
  by_non_delivery : Settles not_delivered (failing (some "reconciled_authoritative_non_delivery"))

admitted :
    {o : ContactEvidenceOutcome} (k : Call) (op : BridgeOperation)
    → Settles o k
    → op.state ≡ delivery_unknown
    → Admits k op
admitted completing op by_delivery u = ground arith
admitted _ op by_non_delivery u = ground arith

fitting :
    {o : ContactEvidenceOutcome} (k : Call) (at : String)
    → Settles o k
    → is_blank at ≡ false
    → ArgumentsFit k at
unfolding is_safe_token
fitting _ at by_delivery b = (b, tt)
fitting _ at by_non_delivery b = (b, refl)

module _ (sanitize : String → String) (probe : EvidenceProbe) (now id observed_at : String)
    (s s' : Stores) (sound : IsSound s.operations) (op : BridgeOperation)
    (found : find_id id s.operations.operations ≡ some op) (e : ContactEvidence)
    (collected : collect_evidence sanitize probe now op s ≡ (ok e, s')) where
  operations_kept : s'.operations ≡ s.operations
  operations_kept =
      subst (λ (r : Result ContactEvidence × Stores). r.1.operations ≡ s.operations) collected
        ((collect_evidence-Untouched sanitize probe now s.operations op).from s refl)

  to_settle :
      reconcile sanitize probe now id observed_at s
      ≡ settle_by sanitize probe now e.outcome observed_at op e s'
  unfolding reconcile
  to_settle = rw (get_sound id s.operations op sound found) (rw collected refl)

  -- On a sound store, where the evidence collected for a stored operation is unknown, a
  -- reconciliation returns the operation as it is, marked as not changed, and no operation changes.
  pub reconcile_undecided :
      e.outcome ≡ still_unknown
      → (reconcile sanitize probe now id observed_at s
          ≡ (ok (record { operation = op; evidence = e; changed = false }), s'))
        × (s'.operations ≡ s.operations)
  reconcile_undecided u = (to_settle ∙ rw u refl, operations_kept)

  settle_total :
      {o : ContactEvidenceOutcome} (k : Call) (db' : Database)
      → Settles o k
      → call k op.operation_id observed_at s'.operations ≡ (ok (outcome_of k observed_at op), db')
      → settle_by sanitize probe now o observed_at op e s' ≡ (
        ok (record { operation = outcome_of k observed_at op; evidence = e; changed = true }),
        record s' { operations = db' },
      )
  unfolding call
  settle_total completing db' by_delivery h = rw h refl
  settle_total _ db' by_non_delivery h = rw h refl

  -- On a sound store, where the evidence collected for a stored operation whose delivery is unknown
  -- is decisive, and with a non-blank time, a reconciliation returns the operation moved to
  -- COMPLETED if it was delivered and to FAILED_SAFE if not, and no other operation changes.
  pub reconcile_decided :
      (k : Call)
      → Settles e.outcome k
      → op.state ≡ delivery_unknown
      → is_blank observed_at ≡ false
      → (db' : Database) × (reconcile sanitize probe now id observed_at s ≡ (
        ok (record { operation = outcome_of k observed_at op; evidence = e; changed = true }),
        record s' { operations = db' },
      ))
        × Moved s.operations db' id op (outcome_of k observed_at op)
  reconcile_decided k by lost given =
      let (db', h, moved) =
        call_total s.operations sound k id observed_at op found (admitted k op by lost)
          (fitting k observed_at by given) in
      let same = operation_id-find_id id s.operations.operations op found in
      let called =
        subst
          (λ (i : String).
            call k i observed_at s'.operations ≡ (ok (outcome_of k observed_at op), db'))
          (sym same) (rw operations_kept h) in
      (db', to_settle ∙ settle_total k db' by called, moved)
