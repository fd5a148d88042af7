-- ===== src/Retry/Sweeps.antt =====
-- The methods of RetryEngine that go over many operations, and runs of the engine and the store's
-- other callers in any order.
use hermes_life_bridge.Prelude.{ℕ, Bool, true, false, Option, none, some, String, take}
use hermes_life_bridge.Errors.{Result}
use hermes_life_bridge.Exec.{Exec, ◌>>=◌, pure, lift, reads}
use hermes_life_bridge.Exec.Preserves.{
  Preserves, Preserves-lift, Preserves-pure, Preserves-if, Preserves-skip_conflict, Preserves-bind,
  Preserves-reads, Preserves-collect,
}
use hermes_life_bridge.Calendar.{Calendar, parse_timestamp, format_timestamp}
use hermes_life_bridge.Contract.{
  in_flight, failed_safe, retry_wait, RetryClass, percept, cognition, BridgeOperation,
}
use hermes_life_bridge.Store.{
  Database, list_operations, mark_completed, mark_failed_safe, make_retry_ready,
}
use hermes_life_bridge.Retry.Registry.{Policies, policy_for, is_contact}
use hermes_life_bridge.Retry.Due.{due_entries}
use hermes_life_bridge.Retry.Engine.{
  Probe, reconcile_receipt, check_limit, require_probe, schedule_pending_failed_safe,
  due_operations, release_operation, release_or_complete, release_due, recover_percept,
  recover_interrupted_percept, settle_cognition, recover_cognition, recover_interrupted_cognition,
}
use hermes_life_bridge.Retry.Limits.{IsLimited}
use hermes_life_bridge.Retry.Bounded.{
  complete-Keeps, fail-Keeps, release-Keeps, result-Keeps, schedule_failed_safe-Preserves,
}

module _ (calendar : Calendar) (digest_head : String → ℕ) (policies : Policies) where
  abbrev Keeps : {A : Type 0} → Exec Database A → Type 0
  Keeps m = Preserves (IsLimited policies) m

  reads-Keeps :
      {A B : Type 0} (f : Database → Result A) (k : A → Exec Database B)
      → ((a : A) → Keeps (k a))
      → Keeps (reads f >>= k)
  reads-Keeps f k h = Preserves-reads f k (λ db l a _. (h a).from db l)

  lift-Keeps :
      {A B : Type 0} (r : Result A) (k : A → Exec Database B)
      → ((a : A) → Keeps (k a))
      → Keeps (lift r >>= k)
  lift-Keeps r k h = Preserves-bind (lift r) k (Preserves-lift r) h

  pub schedule_pending-Keeps :
      (now : String) (kind : Option RetryClass) (limit : ℕ) (probe : Probe)
      → Keeps (schedule_pending_failed_safe calendar digest_head policies now kind limit probe)
  unfolding schedule_pending_failed_safe
  schedule_pending-Keeps now kind limit probe =
      lift-Keeps (check_limit limit "retry_pending_limit_out_of_range") _ (λ _.
        lift-Keeps (parse_timestamp calendar now) _ (λ instant.
          reads-Keeps (list_operations kind (some failed_safe)) _ (λ rows.
            lift-Keeps (require_probe policies probe (take limit rows)) _ (λ _.
              Preserves-collect _ (take limit rows) (λ op. Preserves-skip_conflict _ (
                schedule_failed_safe-Preserves calendar digest_head policies op.operation_id
                  (format_timestamp calendar instant) probe))))))

  pub due_operations-Keeps :
      (now : String) (kind : Option RetryClass) (limit : ℕ)
      → Keeps (due_operations calendar digest_head policies now kind limit)
  unfolding due_operations
  due_operations-Keeps now kind limit =
      lift-Keeps (check_limit limit "retry_due_limit_out_of_range") _ (λ _.
        lift-Keeps (parse_timestamp calendar now) _ (λ instant.
          reads-Keeps (list_operations kind (some retry_wait)) _
            (λ rows. lift-Keeps (due_entries calendar instant rows) _ (λ due. Preserves-pure _))))

  release_or_complete-Keeps :
      (accepted : Bool) (now : String) (op : BridgeOperation)
      → Keeps (release_or_complete calendar digest_head policies accepted now op)
  release_or_complete-Keeps true now op = Preserves-skip_conflict _ (
      result-Keeps policies (mark_completed op.operation_id now) _
        (complete-Keeps policies op.operation_id now))
  release_or_complete-Keeps false now op = Preserves-skip_conflict _ (
      result-Keeps policies (make_retry_ready op.operation_id now) _
        (release-Keeps policies op.operation_id now))

  release_operation-Keeps :
      (now : String) (probe : Probe) (op : BridgeOperation)
      → Keeps (release_operation calendar digest_head policies now probe op)
  unfolding release_operation
  release_operation-Keeps now probe op =
      Preserves-if (is_contact op.kind) (pure none) _ (λ _. Preserves-pure none)
        (λ _.
          lift-Keeps (reconcile_receipt (policy_for policies op.kind) probe op)
            (λ accepted. release_or_complete calendar digest_head policies accepted now op)
            (λ accepted. release_or_complete-Keeps accepted now op))

  pub release_due-Keeps :
      (now : String) (kind : Option RetryClass) (limit : ℕ) (probe : Probe)
      → Keeps (release_due calendar digest_head policies now kind limit probe)
  unfolding release_due
  release_due-Keeps now kind limit probe = lift-Keeps (parse_timestamp calendar now) _ (λ instant.
      Preserves-bind (due_operations calendar digest_head policies now kind limit) _
        (due_operations-Keeps now kind limit)
        (λ due. lift-Keeps (require_probe policies probe due) _ (λ _.
          Preserves-collect _ due
            (release_operation-Keeps (format_timestamp calendar instant) probe))))

  recover_percept-Keeps :
      (now : String) (op : BridgeOperation)
      → Keeps (recover_percept calendar digest_head policies now op)
  unfolding recover_percept
  recover_percept-Keeps now op = Preserves-skip_conflict _ (
      Preserves-bind
        (mark_failed_safe op.operation_id now (some "process_restart_idempotent_replay_safe")) _
        (fail-Keeps policies op.operation_id now _)
        (λ _.
          schedule_failed_safe-Preserves calendar digest_head policies op.operation_id now none))

  pub recover_interrupted_percept-Keeps :
      (now : String) → Keeps (recover_interrupted_percept calendar digest_head policies now)
  unfolding recover_interrupted_percept
  recover_interrupted_percept-Keeps now = lift-Keeps (parse_timestamp calendar now) _ (λ instant.
      reads-Keeps (list_operations (some percept) (some in_flight)) _ (λ rows.
        Preserves-collect _ rows (recover_percept-Keeps (format_timestamp calendar instant))))

  settle_cognition-Keeps :
      (seen : Bool) (now : String) (accepted : BridgeOperation → Result Bool) (op : BridgeOperation)
      → Keeps (settle_cognition calendar digest_head policies seen now accepted op)
  settle_cognition-Keeps true now accepted op = Preserves-skip_conflict _ (
      result-Keeps policies (mark_completed op.operation_id now) _
        (complete-Keeps policies op.operation_id now))
  settle_cognition-Keeps false now accepted op = Preserves-skip_conflict _ (
      Preserves-bind
        (mark_failed_safe op.operation_id now (some "process_restart_no_accepted_receipt")) _
        (fail-Keeps policies op.operation_id now _)
        (λ _.
          schedule_failed_safe-Preserves calendar digest_head policies op.operation_id now
            (some accepted)))

  recover_cognition-Keeps :
      (now : String) (accepted : BridgeOperation → Result Bool) (op : BridgeOperation)
      → Keeps (recover_cognition calendar digest_head policies now accepted op)
  unfolding recover_cognition
  recover_cognition-Keeps now accepted op =
      lift-Keeps (accepted op)
        (λ seen. settle_cognition calendar digest_head policies seen now accepted op)
        (λ seen. settle_cognition-Keeps seen now accepted op)

  pub recover_interrupted_cognition-Keeps :
      (now : String) (accepted : BridgeOperation → Result Bool)
      → Keeps (recover_interrupted_cognition calendar digest_head policies now accepted)
  unfolding recover_interrupted_cognition
  recover_interrupted_cognition-Keeps now accepted =
      lift-Keeps (parse_timestamp calendar now) _ (λ instant.
        reads-Keeps (list_operations (some cognition) (some in_flight)) _ (λ rows.
          Preserves-collect _ rows
            (recover_cognition-Keeps (format_timestamp calendar instant) accepted)))
