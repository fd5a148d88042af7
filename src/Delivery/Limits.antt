-- ===== src/Delivery/Limits.antt =====
-- The executor keeps the bound on attempts.
use hermes_life_bridge.Prelude.{ℕ, not, Option, none, some, String}
use hermes_life_bridge.Errors.{Result}
use hermes_life_bridge.Exec.{Exec, pure, reads, ◌>>=◌, skip_conflict}
use hermes_life_bridge.Exec.Preserves.{
  Preserves, Preserves-pure, Preserves-if, Preserves-bind, Preserves-skip_conflict,
}
use hermes_life_bridge.Calendar.{Calendar}
use hermes_life_bridge.Contract.{
  OperationState, prepared, in_flight, retry_wait, completed, failed_safe, exhausted, percept,
  BridgeOperation, same_state, same_kind,
}
use hermes_life_bridge.Store.{
  Database, PerceptEvent, Representation, get, get_percept_event, clear_percept_event,
  mark_completed, mark_failed_safe, make_retry_ready,
}
use hermes_life_bridge.Retry.{
  default_retry_policies, IsLimited, RetryResult, schedule_failed_safe, due_operations,
  begin_attempt, complete-Keeps, fail-Keeps, release-Keeps, schedule_failed_safe-Preserves,
  begin_attempt-Preserves, due_operations-Keeps,
}
use hermes_life_bridge.Delivery.Setting.{RuntimeReceipt, World, Host, on_store, now, send_percept}
use hermes_life_bridge.Delivery.Executor.{
  schedule_by_state, settle_failure, schedule_found, schedule_failed, settle_accepted, settle_reply,
  deliver, deliver_begun, begin_and_deliver, deliver_ready, release_and_deliver, attempt_by_state,
  attempt_found, attempt, includes, deferred_or_exhausted, failed,
}

-- The store is within the limits of the default policies.
abbrev pub IsWithinLimits : World → Type 0
IsWithinLimits w = IsLimited default_retry_policies w.store

abbrev pub Keeps : {A : Type 0} → Exec World A → Type 0
Keeps m = Preserves IsWithinLimits m

pub on_store-Keeps :
    {A : Type 0} (m : Exec Database A)
    → Preserves (IsLimited default_retry_policies) m
    → Keeps (on_store m)
on_store-Keeps m h = record { from = λ w l. h.from w.store l }

module _ (calendar : Calendar) (digest_head : String → ℕ) (rep : Representation) (host : Host) where
  pub now-Keeps : Keeps (now host)
  now-Keeps = record { from = λ w l. l }

  send_percept-Keeps : (event : PerceptEvent) → Keeps (send_percept host event)
  send_percept-Keeps event = record { from = λ w l. l }

  pub after_now :
      {A : Type 0} (k : String → Exec World A)
      → ((time : String) → Keeps (k time))
      → Keeps (now host >>= k)
  after_now k h = Preserves-bind (now host) k now-Keeps h

  pub reads_store-Keeps : {A : Type 0} (f : Database → Result A) → Keeps (on_store (reads f))
  reads_store-Keeps f = record { from = λ w l. l }

  clear_percept_event-Keeps : (id : String) → Keeps (on_store (clear_percept_event id))
  unfolding clear_percept_event
  clear_percept_event-Keeps id = record {
    from = λ w l. record {
      sound = record { well_formed = l.sound.well_formed; ids = l.sound.ids; keys = l.sound.keys };
      within = l.within;
    };
  }

  schedule_by_state-Keeps :
      (id : String) (state : OperationState)
      → Keeps (schedule_by_state calendar digest_head rep host id state)
  schedule_by_state-Keeps id failed_safe =
      after_now
        (λ time.
          on_store (schedule_failed_safe calendar digest_head default_retry_policies id time none)
          >>= λ result.
              pure (deferred_or_exhausted calendar digest_head rep host result.disposition))
        (λ time.
          Preserves-bind
            (on_store
              (schedule_failed_safe calendar digest_head default_retry_policies id time none))
            _
            (on_store-Keeps _ (
              schedule_failed_safe-Preserves calendar digest_head default_retry_policies id time
                none))
            (λ result.
              Preserves-pure
                (deferred_or_exhausted calendar digest_head rep host result.disposition)))
  schedule_by_state-Keeps id exhausted = Preserves-pure _
  schedule_by_state-Keeps id _ = Preserves-pure _

  settle_failure-Keeps :
      (id error : String) (op : BridgeOperation)
      → Keeps (settle_failure calendar digest_head rep host id error op)
  settle_failure-Keeps id error op =
      Preserves-if (same_state op.state in_flight) _ (pure op)
        (λ _.
          after_now (λ time. on_store (mark_failed_safe id time (some error)))
            (λ time.
              on_store-Keeps (mark_failed_safe id time (some error))
                (fail-Keeps default_retry_policies id time (some error))))
        (λ _. Preserves-pure op)

  schedule_found-Keeps :
      (id error : String) (found : Option BridgeOperation)
      → Keeps (schedule_found calendar digest_head rep host id error found)
  schedule_found-Keeps id error none = Preserves-pure _
  schedule_found-Keeps id error (some op) =
      Preserves-bind (settle_failure calendar digest_head rep host id error op) _
        (settle_failure-Keeps id error op) (λ current. schedule_by_state-Keeps id current.state)

  schedule_failed-Keeps :
      (id error : String) → Keeps (schedule_failed calendar digest_head rep host id error)
  unfolding schedule_failed
  schedule_failed-Keeps id error =
      Preserves-bind (on_store (reads (get id))) _ (reads_store-Keeps (get id))
        (λ found. schedule_found-Keeps id error found)

  settle_accepted-Keeps :
      (id : String) (receipt : RuntimeReceipt)
      → Keeps (settle_accepted calendar digest_head rep host id receipt)
  settle_accepted-Keeps id receipt = after_now _ (λ time.
      Preserves-bind (on_store (mark_completed id time)) _
        (on_store-Keeps (mark_completed id time) (complete-Keeps default_retry_policies id time))
        (λ _.
          Preserves-bind (on_store (clear_percept_event id)) _ (clear_percept_event-Keeps id)
            (λ _. Preserves-pure receipt)))

  settle_reply-Keeps :
      (id : String) (reply : Option RuntimeReceipt)
      → Keeps (settle_reply calendar digest_head rep host id reply)
  settle_reply-Keeps id none = schedule_failed-Keeps id "runtime_transport_exception"
  settle_reply-Keeps id (some receipt) =
      Preserves-if receipt.accepted (settle_accepted calendar digest_head rep host id receipt)
        (schedule_failed calendar digest_head rep host id "runtime_ack_not_ok")
        (λ _. settle_accepted-Keeps id receipt) (λ _. schedule_failed-Keeps id "runtime_ack_not_ok")

  deliver-Keeps :
      (id : String) (event : Option PerceptEvent)
      → Keeps (deliver calendar digest_head rep host id event)
  deliver-Keeps id none = schedule_failed-Keeps id "percept_outbox_payload_missing"
  deliver-Keeps id (some event) =
      Preserves-bind (send_percept host event) _ (send_percept-Keeps event)
        (λ reply. settle_reply-Keeps id reply)

  deliver_begun-Keeps :
      (id : String) (begun : Option RetryResult)
      → Keeps (deliver_begun calendar digest_head rep host id begun)
  deliver_begun-Keeps id none = Preserves-pure _
  deliver_begun-Keeps id (some begun) =
      Preserves-bind (on_store (reads (get_percept_event rep id))) _
        (reads_store-Keeps (get_percept_event rep id)) (λ event. deliver-Keeps id event)

  begin_and_deliver-Keeps :
      (id : String) (op : BridgeOperation)
      → Keeps (begin_and_deliver calendar digest_head rep host id op)
  unfolding begin_and_deliver
  begin_and_deliver-Keeps id op =
      Preserves-if (not (same_state op.state prepared)) (pure (failed "percept_not_ready")) _
        (λ _. Preserves-pure _)
        (λ _.
          after_now
            (λ time.
              skip_conflict
                (on_store (begin_attempt calendar digest_head default_retry_policies id time none))
              >>= deliver_begun calendar digest_head rep host id)
            (λ time.
              Preserves-bind
                (skip_conflict (
                  on_store
                    (begin_attempt calendar digest_head default_retry_policies id time none)))
                _
                (Preserves-skip_conflict _ (
                  on_store-Keeps _ (
                    begin_attempt-Preserves calendar digest_head default_retry_policies id time
                      none)))
                (λ begun. deliver_begun-Keeps id begun)))

  deliver_ready-Keeps :
      (id : String) (ready : Option BridgeOperation)
      → Keeps (deliver_ready calendar digest_head rep host id ready)
  deliver_ready-Keeps id none = Preserves-pure _
  deliver_ready-Keeps id (some op) = begin_and_deliver-Keeps id op

  release_and_deliver-Keeps :
      (id : String) → Keeps (release_and_deliver calendar digest_head rep host id)
  unfolding release_and_deliver
  release_and_deliver-Keeps id = after_now _ (λ time.
      Preserves-bind
        (on_store
          (due_operations calendar digest_head default_retry_policies time (some percept) 100))
        _
        (on_store-Keeps _ (
          due_operations-Keeps calendar digest_head default_retry_policies time (some percept) 100))
        (λ due.
          Preserves-if (includes id due) _ (pure (failed "percept_retry_deferred"))
            (λ _.
              after_now
                (λ time'.
                  skip_conflict (on_store (make_retry_ready id time'))
                  >>= deliver_ready calendar digest_head rep host id)
                (λ time'.
                  Preserves-bind (skip_conflict (on_store (make_retry_ready id time'))) _
                    (Preserves-skip_conflict _
                      (on_store-Keeps _ (release-Keeps default_retry_policies id time')))
                    (λ ready. deliver_ready-Keeps id ready)))
            (λ _. Preserves-pure _)))

  attempt_by_state-Keeps :
      (id : String) (op : BridgeOperation) (state : OperationState)
      → Keeps (attempt_by_state calendar digest_head rep host id op state)
  attempt_by_state-Keeps id op completed = Preserves-pure _
  attempt_by_state-Keeps id op exhausted = Preserves-pure _
  attempt_by_state-Keeps id op in_flight = Preserves-pure _
  attempt_by_state-Keeps id op failed_safe = schedule_failed-Keeps id _
  attempt_by_state-Keeps id op retry_wait = release_and_deliver-Keeps id
  attempt_by_state-Keeps id op _ = begin_and_deliver-Keeps id op

  attempt_found-Keeps :
      (id : String) (found : Option BridgeOperation)
      → Keeps (attempt_found calendar digest_head rep host id found)
  attempt_found-Keeps id none = Preserves-pure _
  attempt_found-Keeps id (some op) =
      Preserves-if (not (same_kind op.kind percept))
        (pure (failed "percept_operation_kind_mismatch")) _ (λ _. Preserves-pure _)
        (λ _. attempt_by_state-Keeps id op op.state)

  pub attempt-Keeps : (id : String) → Keeps (attempt calendar digest_head rep host id)
  unfolding attempt
  attempt-Keeps id =
      Preserves-bind (on_store (reads (get id))) _ (reads_store-Keeps (get id))
        (λ found. attempt_found-Keeps id found)
