-- ===== src/Delivery/Sweeping.antt =====
-- The bound on attempts over a pump of the executor.
use hermes_life_bridge.Prelude.{
  ℕ, Bool, true, false, none, some, List, [], ◌∷◌, String, take, length,
}
use hermes_life_bridge.Errors.{ok}
use hermes_life_bridge.Exec.{pure, reads, ◌>>◌}
use hermes_life_bridge.Exec.Preserves.{Preserves-pure, Preserves-bind}
use hermes_life_bridge.Calendar.{Calendar}
use hermes_life_bridge.Contract.{percept}
use hermes_life_bridge.Store.{Representation, get, list_percept_outbox_operation_ids}
use hermes_life_bridge.Retry.{
  default_retry_policies, IsLimited, schedule_pending_failed_safe, release_due,
  recover_interrupted_percept, schedule_pending-Keeps, release_due-Keeps,
  recover_interrupted_percept-Keeps,
}
use hermes_life_bridge.Delivery.Setting.{World, Host, on_store}
use hermes_life_bridge.Delivery.Executor.{attempt}
use hermes_life_bridge.Delivery.Pump.{
  PumpCounts, no_counts, is_ready, deliver_pending, release_and_deliver_pending, tally, attempt_if,
  attempt_each, pump,
}
use hermes_life_bridge.Delivery.Limits.{
  Keeps, on_store-Keeps, after_now, reads_store-Keeps, attempt-Keeps,
}

module _ (calendar : Calendar) (digest_head : String → ℕ) (rep : Representation) (host : Host) where
  attempt_if-Keeps :
      (b : Bool) (id : String) (c : PumpCounts)
      → Keeps (attempt_if calendar digest_head rep host b id c)
  attempt_if-Keeps false id c = Preserves-pure c
  attempt_if-Keeps true id c =
      Preserves-bind (attempt calendar digest_head rep host id) (λ r. pure (tally c r))
        (attempt-Keeps calendar digest_head rep host id) (λ r. Preserves-pure (tally c r))

  attempt_each-Keeps :
      (ids : List String) (c : PumpCounts)
      → Keeps (attempt_each calendar digest_head rep host ids c)
  unfolding attempt_each
  attempt_each-Keeps [] c = Preserves-pure c
  attempt_each-Keeps (id ∷ ids) c =
      Preserves-bind (on_store (reads (get id))) _
        (reads_store-Keeps calendar digest_head rep host (get id))
        (λ found.
          Preserves-bind
            (attempt_if calendar digest_head rep host (is_ready calendar digest_head rep host found)
              id c)
            _ (attempt_if-Keeps _ id c) (λ c'. attempt_each-Keeps ids c'))

  deliver_pending-Keeps : (limit : ℕ) → Keeps (deliver_pending calendar digest_head rep host limit)
  unfolding deliver_pending
  deliver_pending-Keeps limit =
      Preserves-bind (on_store (reads (λ db. ok (list_percept_outbox_operation_ids db)))) _
        (reads_store-Keeps calendar digest_head rep host _)
        (λ ids.
          Preserves-bind (attempt_each calendar digest_head rep host (take limit ids) no_counts) _
            (attempt_each-Keeps (take limit ids) no_counts)
            (λ c.
              Preserves-bind (on_store (reads (λ db. ok (list_percept_outbox_operation_ids db))))
                (λ left. pure (record c { outbox_remaining = length left }))
                (reads_store-Keeps calendar digest_head rep host _)
                (λ left. Preserves-pure (record c { outbox_remaining = length left }))))

  release_and_deliver_pending-Keeps :
      (limit : ℕ) → Keeps (release_and_deliver_pending calendar digest_head rep host limit)
  release_and_deliver_pending-Keeps limit =
      after_now calendar digest_head rep host
        (λ released_at.
          on_store (
            release_due calendar digest_head default_retry_policies released_at (some percept) limit
              none)
          >> deliver_pending calendar digest_head rep host limit)
        (λ released_at.
          Preserves-bind
            (on_store (
              release_due calendar digest_head default_retry_policies released_at (some percept)
                limit none))
            _
            (on_store-Keeps _ (
              release_due-Keeps calendar digest_head default_retry_policies released_at
                (some percept) limit none))
            (λ _. deliver_pending-Keeps limit))

  pump-Keeps : (limit : ℕ) → Keeps (pump calendar digest_head rep host limit)
  unfolding pump
  pump-Keeps limit = after_now calendar digest_head rep host _ (λ recovered_at.
      Preserves-bind
        (on_store
          (recover_interrupted_percept calendar digest_head default_retry_policies recovered_at))
        _
        (on_store-Keeps _ (
          recover_interrupted_percept-Keeps calendar digest_head default_retry_policies
            recovered_at))
        (λ _.
          after_now calendar digest_head rep host
            (λ scheduled_at.
              on_store (
                schedule_pending_failed_safe calendar digest_head default_retry_policies
                  scheduled_at (some percept) limit none)
              >> release_and_deliver_pending calendar digest_head rep host limit)
            (λ scheduled_at.
              Preserves-bind
                (on_store (
                  schedule_pending_failed_safe calendar digest_head default_retry_policies
                    scheduled_at (some percept) limit none))
                _
                (on_store-Keeps _ (
                  schedule_pending-Keeps calendar digest_head default_retry_policies scheduled_at
                    (some percept) limit none))
                (λ _. release_and_deliver_pending-Keeps limit))))

  -- Neither an attempt nor a pump of the Percept executor, whatever the clock says and the
  -- transport answers or raises, takes a store out of the limits: it stays sound, and no operation
  -- has more attempts than the default policy of its kind allows.
  pub executor-IsLimited :
      (id : String) (limit : ℕ) (w : World)
      → IsLimited default_retry_policies w.store
      → IsLimited default_retry_policies (attempt calendar digest_head rep host id w).1.store
        × IsLimited default_retry_policies (pump calendar digest_head rep host limit w).1.store
  executor-IsLimited id limit w l =
      ((attempt-Keeps calendar digest_head rep host id).from w l, (pump-Keeps limit).from w l)
