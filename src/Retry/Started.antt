-- ===== src/Retry/Started.antt =====
-- RetryEngine.begin_attempt and the attempt counters.
use hermes_life_bridge.Prelude.{
  ℕ, ◌≡◌, refl, sym, ap, subst, ◌∙◌, Bool, true, false, ◌&&◌, Option, none, some, String, ltb,
  if◌then◌else◌,
}
use hermes_life_bridge.Errors.{Result, ok, ok_inj, retry_engine_error}
use hermes_life_bridge.Exec.{Exec, pure, raise, lift, reads, ◌>>=◌, continue-eq-ok, pair_eq}
use hermes_life_bridge.Exec.Preserves.{
  Preserves, Preserves-lift, Preserves-pure, Preserves-raise, Preserves-if, Preserves-bind,
}
use hermes_life_bridge.Calendar.{Calendar, parse_timestamp, format_timestamp}
use hermes_life_bridge.Contract.{prepared, BridgeOperation}
use hermes_life_bridge.Store.{
  Database, find_id, operation_id-find_id, get, get-eq-some, call, starting, completing,
  mark_completed, start_attempt, outcome_of, attempts_of, tried, AtLeast, call-AtLeast, call-tried,
}
use hermes_life_bridge.Retry.Types.{RetryResult, RetryDisposition}
use hermes_life_bridge.Retry.Registry.{Policies, policy_for, is_contact}
use hermes_life_bridge.Retry.Engine.{
  Probe, result_of, require_found, require_state, reconcile_receipt, complete_or, start_operation,
  begin_operation, begin_attempt,
}

require_found-eq-ok :
    (found : Option BridgeOperation) {op : BridgeOperation}
    → require_found found ≡ ok op
    → found ≡ some op
require_found-eq-ok none h = cc
require_found-eq-ok (some op) h = ap some (ok_inj h)

returned-inj :
    {A S : Type 0} {a a' : A} {s s' : S}
    → ◌≡◌ {A = Result A × S} (ok a, s) (ok a', s')
    → (a ≡ a') × (s ≡ s')
returned-inj e = (ok_inj (ap (λ x. x.0) e), ap (λ x. x.1) e)

same_found : {o : Option BridgeOperation} {a b : BridgeOperation} → o ≡ some a → o ≡ some b → a ≡ b
same_found p q = cc

module _ (calendar : Calendar) (digest_head : String → ℕ) (policies : Policies)
    (n : String → ℕ) where
  abbrev Keeps : {A : Type 0} → Exec Database A → Type 0
  Keeps m = Preserves (AtLeast n) m

  reads-Keeps : {A : Type 0} (f : Database → Result A) → Keeps (reads f)
  reads-Keeps f = record { from = λ db l. l }

  start_operation-Keeps :
      (now : ℕ) (op : BridgeOperation)
      → Keeps (start_operation calendar digest_head policies now op)
  unfolding call
  start_operation-Keeps now op =
      Preserves-bind (start_attempt op.operation_id (format_timestamp calendar now)) _
        (call-AtLeast n starting op.operation_id (format_timestamp calendar now))
        (λ running. Preserves-pure (result_of RetryDisposition.started running))

  complete_or-Keeps :
      (b : Bool) (now : ℕ) (op : BridgeOperation) (m : Exec Database RetryResult)
      → Keeps m
      → Keeps (complete_or calendar digest_head policies b now op m)
  unfolding call
  complete_or-Keeps true now op m k =
      Preserves-bind (mark_completed op.operation_id (format_timestamp calendar now)) _
        (call-AtLeast n completing op.operation_id (format_timestamp calendar now))
        (λ done. Preserves-pure (result_of RetryDisposition.completed done))
  complete_or-Keeps false now op m k = k

  begin_operation-Keeps :
      (now : ℕ) (probe : Probe) (op : BridgeOperation)
      → Keeps (begin_operation calendar digest_head policies now probe op)
  unfolding begin_operation
  begin_operation-Keeps now probe op =
      Preserves-if (is_contact op.kind && ltb 0 op.attempt) _ _
        (λ _. Preserves-raise (retry_engine_error "contact_fresh_decision_required"))
        (λ _. Preserves-bind (lift _) _ (Preserves-lift _) (λ accepted.
          complete_or-Keeps accepted now op (start_operation calendar digest_head policies now op)
            (start_operation-Keeps now op)))

  pub begin_attempt-AtLeast :
      (id now : String) (probe : Probe)
      → Keeps (begin_attempt calendar digest_head policies id now probe)
  unfolding begin_attempt
  begin_attempt-AtLeast id now probe =
      Preserves-bind (lift (parse_timestamp calendar now)) _ (Preserves-lift _) (λ instant.
        Preserves-bind (reads (get id)) _ (reads-Keeps (get id)) (λ found.
          Preserves-bind (lift (require_found found)) _ (Preserves-lift _) (λ op.
            Preserves-bind (lift (require_state prepared "begin_attempt_requires_prepared" op)) _
              (Preserves-lift _) (λ _. begin_operation-Keeps instant probe op))))

  untried :
      (b : Bool) (m : ℕ) (refuse : Exec Database RetryResult) (r : Result Bool)
      (k : Bool → Exec Database RetryResult) (db : Database)
      → m ≡ 0
      → (if b && ltb 0 m then refuse else (lift (if ltb 0 m then r else ok false) >>= k)) db
        ≡ k false db
  untried true m refuse r k db zero = rw zero refl
  untried false m refuse r k db zero = rw zero refl

  started_at_once :
      (now : ℕ) (probe : Probe) (op : BridgeOperation) (db : Database)
      → op.attempt ≡ 0
      → begin_operation calendar digest_head policies now probe op db
        ≡ start_operation calendar digest_head policies now op db
  unfolding begin_operation
  started_at_once now probe op db zero =
      untried (is_contact op.kind) op.attempt
        (raise (retry_engine_error "contact_fresh_decision_required"))
        (reconcile_receipt (policy_for policies op.kind) probe op)
        (λ accepted.
          complete_or calendar digest_head policies accepted now op
            (start_operation calendar digest_head policies now op))
        db zero

  start_operation_first :
      (now : ℕ) (op : BridgeOperation) (db : Database)
      → AtLeast n db
      → find_id op.operation_id db.operations ≡ some op
      → op.attempt ≡ 0
      → {r : RetryResult} {db' : Database}
      → start_operation calendar digest_head policies now op db ≡ (ok r, db')
      → (r.operation.operation_id ≡ op.operation_id) × (tried op.operation_id db' ≡ 1)
  unfolding call
  start_operation_first now op db l found zero {r} {db'} h =
      let at = format_timestamp calendar now in
      let (running, started, e) =
        continue-eq-ok (start_attempt op.operation_id at db).0
          (λ running. pure (result_of RetryDisposition.started running))
          (start_attempt op.operation_id at db).1 h in
      let (c, found', foreseen, counted, _) =
        call-tried n starting op.operation_id at db l
          {db' = (start_attempt op.operation_id at db).1} (pair_eq started refl) in
      let (answer, after) = returned-inj e in
      let made = foreseen ∙ ap (outcome_of starting at) (same_found found' found) in
      (
        ap (λ (x : RetryResult). x.operation.operation_id) (sym answer)
            ∙ ap (λ (o : BridgeOperation). o.operation_id) made,
        subst (λ (d : Database). tried op.operation_id d ≡ 1) after
            (counted ∙ ap (λ (o : BridgeOperation). o.attempt) made ∙ rw zero refl),
      )

  -- In a store with unique ids, if `begin_attempt` returns for an operation that was never tried,
  -- it returns the operation of that id, which has one attempt now.
  pub begin_attempt_first :
      (id now : String) (probe : Probe) (db : Database)
      → AtLeast n db
      → tried id db ≡ 0
      → {r : RetryResult} {db' : Database}
      → begin_attempt calendar digest_head policies id now probe db ≡ (ok r, db')
      → (r.operation.operation_id ≡ id) × (tried id db' ≡ 1)
  unfolding begin_attempt
  begin_attempt_first id now probe db l zero {r} {db'} h =
      let (instant, _, h1) = continue-eq-ok (parse_timestamp calendar now) _ db h in
      let (found, got, h2) = continue-eq-ok (get id db) _ db h1 in
      let (op, required, h3) = continue-eq-ok (require_found found) _ db h2 in
      let (_, _, h4) =
        continue-eq-ok (require_state prepared "begin_attempt_requires_prepared" op)
          (λ _. begin_operation calendar digest_head policies instant probe op) db h3 in
      let stored = get-eq-some id db (got ∙ ap ok (require_found-eq-ok found required)) in
      let same = operation_id-find_id id db.operations op stored in
      let untouched : op.attempt ≡ 0 =
        subst (λ (o : Option BridgeOperation). attempts_of o ≡ 0) stored zero in
      subst (λ i. (r.operation.operation_id ≡ i) × (tried i db' ≡ 1)) same
        (start_operation_first instant op db l (rw same stored) untouched
          (sym (started_at_once instant probe op db untouched) ∙ h4))
