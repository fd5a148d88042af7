-- ===== src/Contact/Runs.antt =====
-- The contact service over time: requests, starts of the service, and what others do to its store.
use hermes_life_bridge.Prelude.{
  ℕ, ◌≤◌, ◌≡◌, refl, Bool, true, false, Option, none, some, List, [], ◌∷◌, String, arith, Distinct,
  if◌then◌else◌, length,
}
use hermes_life_bridge.Errors.{Result, ok, err}
use hermes_life_bridge.Exec.{Exec}
use hermes_life_bridge.Exec.Preserves.{Preserves-pure, Preserves-bind}
use hermes_life_bridge.Calendar.{Calendar}
use hermes_life_bridge.Routing.{StoredRoute}
use hermes_life_bridge.Contract.{BridgeOperation}
use hermes_life_bridge.Store.{
  Representation, Call, call, recover_interrupted_contact_operations, same_id, call-AtLeast,
  recover-AtLeast,
}
use hermes_life_bridge.Contact.Reconciler.{EvidenceProbe, ContactReconciliationResult}
use hermes_life_bridge.Contact.Setting.{
  ContactIntentEnvelope, ContactDecisionEnvelope, ContactConfig, ContactWorld, ContactHost,
  in_operations, attempt_any, caught_any,
}
use hermes_life_bridge.Contact.Service.{reconcile_now}
use hermes_life_bridge.Contact.Process.{process}
use hermes_life_bridge.Contact.Kept.{times_sent, Once, Keeps, in_operations-Once, emit-Once}
use hermes_life_bridge.Contact.Answers.{reconcile_now-Once}
use hermes_life_bridge.Contact.Startup.{
  RecoveryCounts, no_counts, mark_recovered, count_result, note_failure, reconcile_each,
  recover_once, recover_startup,
}
use hermes_life_bridge.Contact.Requested.{process-Once}
use hermes_life_bridge.Contact.AtMostOnce.{with_time}

pub attempt_any-Once : {A : Type 0} (m : Exec ContactWorld A) → Keeps m → Keeps (attempt_any m)
attempt_any-Once m h = record { from = λ w o. by_result (m w).0 (m w).1 (h.from w o) }
  where
    by_result : {A : Type 0} (r : Result A) (w : ContactWorld) → Once w → Once (caught_any r w).1
    by_result (ok a) w o = o
    by_result (err e) w o = o

nothing_sent :
    (w : ContactWorld) → Distinct same_id w.stores.operations.operations → w.sent ≡ [] → Once w
unfolding times_sent
nothing_sent w ids unsent =
    let none_for : (id : String) → times_sent id w.sent ≡ 0 = λ id. rw unsent refl in
    record {
      least = record { ids = ids; reached = λ id. rw (none_for id) (omega arith) };
      single = λ id. rw (none_for id) (omega arith);
    }

-- One thing that happens: a request comes in, the service starts or its process is started anew,
-- the file of the route is changed, or another caller moves an operation by any of the seven
-- methods.
pub data ContactEvent : Type 0 where
  requested : ContactIntentEnvelope → ContactDecisionEnvelope → ContactEvent
  recovered restarted : ContactEvent
  learned : Option StoredRoute → ContactEvent
  moved : Call → String → String → ContactEvent

module _ (calendar : Calendar) (digest_head : String → ℕ) (rep : Representation)
    (host : ContactHost) (config : ContactConfig) (probe : EvidenceProbe) where
  note_failure-Once :
      (r : Option ContactReconciliationResult)
      → Keeps (note_failure calendar digest_head rep host config probe r)
  note_failure-Once none = emit-Once "CONTACT_RECONCILIATION_FAILED"
  note_failure-Once (some r) = Preserves-pure tt

  reconcile_each-Once :
      (ops : List BridgeOperation) (counts : RecoveryCounts)
      → Keeps (reconcile_each calendar digest_head rep host config probe ops counts)
  unfolding reconcile_each
  reconcile_each-Once [] counts = Preserves-pure counts
  reconcile_each-Once (op ∷ ops) counts =
      with_time calendar digest_head rep host config probe _ (λ time.
        let m = reconcile_now calendar digest_head rep host config probe op.operation_id time in
        Preserves-bind (attempt_any m) _
          (attempt_any-Once m
            (reconcile_now-Once calendar digest_head rep host config probe op.operation_id time))
          (λ result.
            Preserves-bind (note_failure calendar digest_head rep host config probe result) _
              (note_failure-Once result)
              (λ _.
                reconcile_each-Once ops
                  (count_result calendar digest_head rep host config probe result counts))))

  recover_once-Once : Keeps (recover_once calendar digest_head rep host config probe)
  recover_once-Once = with_time calendar digest_head rep host config probe _ (λ at.
      Preserves-bind (in_operations (recover_interrupted_contact_operations at)) _
        (in_operations-Once _ (λ n. recover-AtLeast n at))
        (λ interrupted.
          Preserves-bind
            (reconcile_each calendar digest_head rep host config probe interrupted (record {
              recovered_in_flight = length interrupted;
              resolved = 0;
              unknown = 0;
              retry = 0;
            }))
            _ (reconcile_each-Once interrupted _)
            (λ counts.
              Preserves-bind mark_recovered _
                (record { from = λ w o. record { least = o.least; single = o.single } })
                (λ _. Preserves-pure counts))))

  recover_startup-Once : Keeps (recover_startup calendar digest_head rep host config probe)
  unfolding recover_startup
  recover_startup-Once = record { from = λ w o. by_flag w.startup_recovered w o }
    where
      by_flag :
          (b : Bool) (w : ContactWorld)
          → Once w
          → Once
              (if b
                then (ok no_counts, w)
                else recover_once calendar digest_head rep host config probe w).1
      by_flag true w o = o
      by_flag false w o = recover_once-Once.from w o

  -- The state after an event, whatever it returned or raised.
  abbrev pub after_event : ContactEvent → ContactWorld → ContactWorld
  after_event (requested intent decision) w =
      (process calendar digest_head rep host config probe intent decision w).1
  after_event recovered w = (recover_startup calendar digest_head rep host config probe w).1
  after_event restarted w = record w { startup_recovered = false }
  after_event (learned route) w = record w { route = route }
  after_event (moved k id now) w = (in_operations (call k id now) w).1

  unfoldable pub after_events : List ContactEvent → ContactWorld → ContactWorld
  unfolding process recover_startup
  after_events [] w = w
  after_events (e ∷ es) w = after_events es (after_event e w)

  after_event-Once : (e : ContactEvent) (w : ContactWorld) → Once w → Once (after_event e w)
  after_event-Once (requested intent decision) w o =
      (process-Once calendar digest_head rep host config probe intent decision).from w o
  after_event-Once recovered w o = recover_startup-Once.from w o
  after_event-Once restarted w o = record { least = o.least; single = o.single }
  after_event-Once (learned route) w o = record { least = o.least; single = o.single }
  after_event-Once (moved k id now) w o =
      (in_operations-Once (call k id now) (λ n. call-AtLeast n k id now)).from w o

  after_events-Once :
      (es : List ContactEvent) (w : ContactWorld) → Once w → Once (after_events es w)
  unfolding after_events
  after_events-Once [] w o = o
  after_events-Once (e ∷ es) w o = after_events-Once es (after_event e w) (after_event-Once e w o)

  -- Whatever is requested, recovered, restarted, learned or moved by other callers, in any order
  -- and with any outcome, no operation of a store with unique ids is handed to the sender more than
  -- once.
  pub sent_at_most_once :
      (es : List ContactEvent) (w : ContactWorld)
      → Distinct same_id w.stores.operations.operations
      → w.sent ≡ []
      → (id : String) → times_sent id (after_events es w).sent ≤ 1
  sent_at_most_once es w ids unsent id =
      (after_events-Once es w (nothing_sent w ids unsent)).single id
