-- ===== src/Retry/Bounded.antt =====
-- No method of the engine lets an operation be attempted more often than its policy allows.
use hermes_life_bridge.Prelude.{
  ℕ, ◌+◌, ◌<◌, ◌≡◌, sym, subst, Bool, true, false, not, ◌&&◌, ◌||◌, Option, none, some, String,
  arith, ltb, leb, if◌then◌else◌,
}
use hermes_life_bridge.Errors.{ok, retry_engine_error}
use hermes_life_bridge.Exec.{Exec, ◌>>=◌, pure, raise, lift, reads}
use hermes_life_bridge.Exec.Preserves.{
  Preserves, Preserves-raise, Preserves-lift, Preserves-pure, Preserves-bind, Preserves-reads,
  PreservesWhere, PreservesWhere-any, PreservesWhere-if, PreservesWhere-lift, PreservesWhere-bind,
}
use hermes_life_bridge.Calendar.{Calendar, parse_timestamp, format_timestamp}
use hermes_life_bridge.Contract.{prepared, failed_safe, BridgeOperation}
use hermes_life_bridge.Store.{
  Database, find_id, get, get-eq-some, operation_id-find_id, Call, starting, completing, releasing,
  exhausting, failing, waiting, call, start_attempt, mark_completed, mark_failed_safe,
  schedule_retry, make_retry_ready, mark_exhausted,
}
use hermes_life_bridge.Retry.Delay.{retry_delay}
use hermes_life_bridge.Retry.Registry.{Policies, policy_for, is_contact}
use hermes_life_bridge.Retry.Types.{RetryDisposition, RetryResult}
use hermes_life_bridge.Retry.Engine.{
  Probe, result_of, require_found, require_state, reconcile_receipt, schedule_wait, exhaust_or_wait,
  complete_or, schedule_operation, schedule_failed_safe, start_operation, begin_operation,
  begin_attempt,
}
use hermes_life_bridge.Retry.Limits.{IsLimited, call-IsLimited}

module _ (policies : Policies) where
  abbrev P : Database → Type 0
  P = IsLimited policies

  abbrev Keeps : {A : Type 0} → Exec Database A → Type 0
  Keeps m = Preserves P m

  -- Every call but the scheduling of a retry keeps the bound.
  pub call-Keeps :
      (k : Call) (id now : String) → ((at : String) → ¬ (k ≡ waiting at)) → Keeps (call k id now)
  call-Keeps k id now other = record {
    from = λ db l. call-IsLimited policies db l k id now (λ at c e _. absurd (other at e));
  }

  start-Keeps : (id now : String) → Keeps (start_attempt id now)
  unfolding call
  start-Keeps id now = call-Keeps starting id now (λ at e. cc)

  pub complete-Keeps : (id now : String) → Keeps (mark_completed id now)
  unfolding call
  complete-Keeps id now = call-Keeps completing id now (λ at e. cc)

  pub fail-Keeps : (id now : String) (code : Option String) → Keeps (mark_failed_safe id now code)
  unfolding call
  fail-Keeps id now code = call-Keeps (failing code) id now (λ at e. cc)

  pub release-Keeps : (id now : String) → Keeps (make_retry_ready id now)
  unfolding call
  release-Keeps id now = call-Keeps releasing id now (λ at e. cc)

  exhaust-Keeps : (id now : String) → Keeps (mark_exhausted id now)
  unfolding call
  exhaust-Keeps id now = call-Keeps exhausting id now (λ at e. cc)

  schedule_retry_at :
      (id at now : String) (op : BridgeOperation) (db : Database)
      → P db
      → find_id id db.operations ≡ some op
      → op.attempt < (policy_for policies op.kind).max_attempts
      → P (schedule_retry id at now db).1
  unfolding call
  schedule_retry_at id at now op db l found room =
      call-IsLimited policies db l (waiting at) id now (λ at' c _ found'.
        subst (λ (o : BridgeOperation). o.attempt < (policy_for policies o.kind).max_attempts)
          (same found found') room)
    where
      same :
          {c : BridgeOperation}
          → find_id id db.operations ≡ some op
          → find_id id db.operations ≡ some c
          → op ≡ c
      same p q = cc

  pub result-Keeps :
      (m : Exec Database BridgeOperation) (g : BridgeOperation → RetryResult)
      → Keeps m
      → Keeps (m >>= λ op. pure (g op))
  result-Keeps m g h = Preserves-bind m _ h (λ op. Preserves-pure (g op))

-- The operation is the stored row of its id.
abbrev pub IsStored : BridgeOperation → Database → Type 0
IsStored op db = find_id op.operation_id db.operations ≡ some op

not_spent : (b : Bool) (a m : ℕ) → b || leb m a ≡ false → a < m
not_spent b a m h = ground arith

module _ (calendar : Calendar) (digest_head : String → ℕ) (policies : Policies) where
  abbrev KeepsWhere : {A : Type 0} → BridgeOperation → Exec Database A → Type 0
  KeepsWhere op m = PreservesWhere (IsStored op) (IsLimited policies) m

  schedule_wait-KeepsWhere :
      (now : ℕ) (op : BridgeOperation)
      → op.attempt < (policy_for policies op.kind).max_attempts
      → KeepsWhere op (schedule_wait calendar digest_head policies now op)
  unfolding schedule_wait
  schedule_wait-KeepsWhere now op room =
      PreservesWhere-lift (retry_delay digest_head op (policy_for policies op.kind)) _ (λ delay.
        PreservesWhere-bind
          (schedule_retry op.operation_id (format_timestamp calendar (now + delay))
            (format_timestamp calendar now))
          _
          (record {
            from =
                λ db stored l. schedule_retry_at policies op.operation_id _ _ op db l stored room;
          })
          (λ w. Preserves-pure _))

  exhaust_or_wait-KeepsWhere :
      (now : ℕ) (op : BridgeOperation)
      → KeepsWhere op (exhaust_or_wait calendar digest_head policies now op)
  unfolding exhaust_or_wait
  exhaust_or_wait-KeepsWhere now op =
      PreservesWhere-if
        (not (policy_for policies op.kind).retry_after_failed_safe
          || leb (policy_for policies op.kind).max_attempts op.attempt)
        _ (schedule_wait calendar digest_head policies now op)
        (λ e. PreservesWhere-any _ (
          result-Keeps policies (mark_exhausted op.operation_id (format_timestamp calendar now)) _
            (exhaust-Keeps policies op.operation_id _)))
        (λ e. schedule_wait-KeepsWhere now op (not_spent _ _ _ e))

  complete_or-KeepsWhere :
      (accepted : Bool) (now : ℕ) (op : BridgeOperation) (m : Exec Database RetryResult)
      → KeepsWhere op m
      → KeepsWhere op (complete_or calendar digest_head policies accepted now op m)
  complete_or-KeepsWhere true now op m h = PreservesWhere-any _ (
      result-Keeps policies (mark_completed op.operation_id (format_timestamp calendar now)) _
        (complete-Keeps policies op.operation_id _))
  complete_or-KeepsWhere false now op m h = h

  schedule_operation-KeepsWhere :
      (now : ℕ) (probe : Probe) (op : BridgeOperation)
      → KeepsWhere op (schedule_operation calendar digest_head policies now probe op)
  unfolding schedule_operation
  schedule_operation-KeepsWhere now probe op =
      PreservesWhere-if (is_contact op.kind)
        (pure (result_of RetryDisposition.fresh_decision_required op)) _
        (λ e. PreservesWhere-any _ (Preserves-pure _))
        (λ e.
          PreservesWhere-lift (reconcile_receipt (policy_for policies op.kind) probe op)
            (λ accepted.
              complete_or calendar digest_head policies accepted now op
                (exhaust_or_wait calendar digest_head policies now op))
            (λ accepted.
              complete_or-KeepsWhere accepted now op _ (exhaust_or_wait-KeepsWhere now op)))

  begin_operation-KeepsWhere :
      (now : ℕ) (probe : Probe) (op : BridgeOperation)
      → KeepsWhere op (begin_operation calendar digest_head policies now probe op)
  unfolding begin_operation
  begin_operation-KeepsWhere now probe op =
      PreservesWhere-if (is_contact op.kind && ltb 0 op.attempt)
        (raise (retry_engine_error "contact_fresh_decision_required")) _
        (λ e. PreservesWhere-any _ (Preserves-raise _))
        (λ e.
          PreservesWhere-lift
            (if ltb 0 op.attempt
              then reconcile_receipt (policy_for policies op.kind) probe op
              else ok false)
            (λ accepted.
              complete_or calendar digest_head policies accepted now op
                (start_operation calendar digest_head policies now op))
            (λ accepted. complete_or-KeepsWhere accepted now op _ (
              PreservesWhere-any _ (
                result-Keeps policies
                  (start_attempt op.operation_id (format_timestamp calendar now)) _
                  (start-Keeps policies op.operation_id _)))))

  -- Reading the operation of an id and going on with it.
  found-Preserves :
      {A : Type 0} (id : String) (k : BridgeOperation → Exec Database A)
      → ((op : BridgeOperation) → KeepsWhere op (k op))
      → Preserves
          (IsLimited policies)
          (reads (get id) >>= λ found. (lift (require_found found) >>= k))
  found-Preserves {A} id k h =
      Preserves-reads (get id) (λ found. (lift (require_found found) >>= k)) go_on
    where
      go_on :
          (db : Database)
          → IsLimited policies db
          → (found : Option BridgeOperation) → get id db ≡ ok found
          → IsLimited policies ((lift (require_found found) >>= k) db).1
      go_on db l none e = l
      go_on db l (some op) e =
          let row = get-eq-some id db e in
          let same = operation_id-find_id id db.operations op row in
          (h op).from db (subst (λ (i : String). find_id i db.operations ≡ some op) (sym same) row)
            l

  pub schedule_failed_safe-Preserves :
      (id now : String) (probe : Probe)
      → Preserves
          (IsLimited policies)
          (schedule_failed_safe calendar digest_head policies id now probe)
  unfolding schedule_failed_safe
  schedule_failed_safe-Preserves id now probe =
      Preserves-bind (lift (parse_timestamp calendar now)) _ (Preserves-lift _) (λ instant.
        found-Preserves id _ (λ op.
          PreservesWhere-lift (require_state failed_safe "retry_engine_requires_failed_safe" op) _
            (λ _. schedule_operation-KeepsWhere instant probe op)))

  pub begin_attempt-Preserves :
      (id now : String) (probe : Probe)
      → Preserves (IsLimited policies) (begin_attempt calendar digest_head policies id now probe)
  unfolding begin_attempt
  begin_attempt-Preserves id now probe =
      Preserves-bind (lift (parse_timestamp calendar now)) _ (Preserves-lift _) (λ instant.
        found-Preserves id _ (λ op.
          PreservesWhere-lift (require_state prepared "begin_attempt_requires_prepared" op) _
            (λ _. begin_operation-KeepsWhere instant probe op)))
