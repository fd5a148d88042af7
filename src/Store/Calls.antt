-- ===== src/Store/Calls.antt =====
-- The seven methods that move one operation, taken together: when each is admitted, and the
-- operation that it leaves behind.
use hermes_life_bridge.Prelude.{
  ◌+◌, ◌≤◌, ◌≡◌, ◌⊎◌, refl, false, not, Option, some, String, arith, is_blank, is_safe_token,
}
use hermes_life_bridge.Errors.{Result, ok, err, state_conflict, raise_if, ◌>>◌, >>=-eq-ok}
use hermes_life_bridge.Exec.{Exec}
use hermes_life_bridge.Contract.{
  prepared, in_flight, retry_wait, completed, failed_safe, delivery_unknown, exhausted, cognition,
  contact, not_attempted, delivered, safe_failure, BridgeOperation, same_state, same_kind,
  same_state_iff, same_kind_iff, post_init, post_init_iff, IsWellFormed, some_and,
  is_late_completion_state,
}
use hermes_life_bridge.Store.Table.{Database}
use hermes_life_bridge.Store.Transition.{
  contact_only, successor, unknown_candidate, completion_guard, build_start, build_completed,
  build_failed_safe, build_delivery_unknown, build_retry_wait, build_retry_ready, build_exhausted,
  start_attempt, mark_completed, mark_failed_safe, mark_delivery_unknown, schedule_retry,
  make_retry_ready, mark_exhausted, transition_transaction,
}

pub data Call : Type 0 where
  starting completing releasing exhausting : Call
  failing losing : Option String → Call
  waiting : String → Call

-- The builder that a method hands to its transaction.
unfoldable pub build : Call → String → BridgeOperation → Result BridgeOperation
unfolding build_start build_completed build_failed_safe build_delivery_unknown build_retry_wait
    build_retry_ready build_exhausted
build starting now = build_start now
build completing now = build_completed now
build (failing code) now = build_failed_safe now code
build (losing code) now = build_delivery_unknown now code
build (waiting at) now = build_retry_wait at now
build releasing now = build_retry_ready now
build exhausting now = build_exhausted now

unfoldable pub call : Call → String → String → Exec Database BridgeOperation
unfolding start_attempt mark_completed mark_failed_safe mark_delivery_unknown schedule_retry
    make_retry_ready mark_exhausted
call starting id now = start_attempt id now
call completing id now = mark_completed id now
call (failing code) id now = mark_failed_safe id now code
call (losing code) id now = mark_delivery_unknown id now code
call (waiting at) id now = schedule_retry id at now
call releasing id now = make_retry_ready id now
call exhausting id now = mark_exhausted id now

pub call-transition_transaction :
    (k : Call) (id now : String) → call k id now ≡ transition_transaction id (build k now)
unfolding call build
call-transition_transaction starting id now = refl
call-transition_transaction completing id now = refl
call-transition_transaction (failing code) id now = refl
call-transition_transaction (losing code) id now = refl
call-transition_transaction (waiting at) id now = refl
call-transition_transaction releasing id now = refl
call-transition_transaction exhausting id now = refl

-- The operations on which a method is allowed.
abbrev pub Admits : Call → BridgeOperation → Type 0
Admits starting c = c.state ≡ prepared
Admits completing c =
    (c.state ≡ in_flight)
    ⊎ (c.state ≡ delivery_unknown)
    ⊎ (c.kind ≡ cognition)
      × (1 ≤ c.attempt)
      × ((c.state ≡ prepared) ⊎ (c.state ≡ failed_safe) ⊎ (c.state ≡ retry_wait))
Admits (failing code) c = (c.state ≡ in_flight) ⊎ (c.state ≡ delivery_unknown)
Admits (losing code) c = (c.kind ≡ contact) × (c.state ≡ in_flight)
Admits (waiting at) c = c.state ≡ failed_safe
Admits releasing c = c.state ≡ retry_wait
Admits exhausting c = c.state ≡ failed_safe

-- What the caller passes is acceptable to the constructor.
abbrev pub ArgumentsFit : Call → String → Type 0
ArgumentsFit (failing code) now =
    (is_blank now ≡ false) × (some_and (λ s. not (is_safe_token s)) code ≡ false)
ArgumentsFit (losing code) now =
    (is_blank now ≡ false) × (some_and (λ s. not (is_safe_token s)) code ≡ false)
ArgumentsFit (waiting at) now = (is_blank now ≡ false) × (is_blank at ≡ false)
ArgumentsFit _ now = (is_blank now ≡ false) × Unit {0}

-- The operation that a method leaves behind.
abbrev pub outcome_of : Call → String → BridgeOperation → BridgeOperation
outcome_of starting now c =
    successor c in_flight (c.attempt + 1) now (contact_only not_attempted c.kind)
outcome_of completing now c = successor c completed c.attempt now (contact_only delivered c.kind)
outcome_of (failing code) now c =
    record (successor c failed_safe c.attempt now (contact_only safe_failure c.kind)) {
      last_error_code = code;
    }
outcome_of (losing code) now c = unknown_candidate now code c
outcome_of (waiting at) now c = record (successor c retry_wait c.attempt now c.delivery_outcome) {
  next_attempt_at = some at;
  last_error_code = c.last_error_code;
}
outcome_of releasing now c = successor c prepared c.attempt now (contact_only not_attempted c.kind)
outcome_of exhausting now c = record (successor c exhausted c.attempt now c.delivery_outcome) {
  last_error_code = c.last_error_code;
}

-- A guard before the constructor.
guarded-eq-ok :
    (m : Result (Unit {0})) (op : BridgeOperation) {c' : BridgeOperation}
    → (m >> post_init op) ≡ ok c'
    → (m ≡ ok tt) × (c' ≡ op) × IsWellFormed op
guarded-eq-ok (ok tt) op {c'} h = let (w, e) = (post_init_iff op c').0 h in (refl, e, w)
guarded-eq-ok (err e) op h = cc

abbrev Built : Call → String → BridgeOperation → BridgeOperation → Type 0
Built k now c c' = Admits k c × (c' ≡ outcome_of k now c) × IsWellFormed (outcome_of k now c)

built :
    (k : Call) (now : String) (c : BridgeOperation) (m : Result (Unit {0})) {c' : BridgeOperation}
    → (m ≡ ok tt → Admits k c)
    → (m >> post_init (outcome_of k now c)) ≡ ok c'
    → Built k now c c'
built k now c m admits h =
    let (passed, e, w) = guarded-eq-ok m (outcome_of k now c) h in (admits passed, e, w)

pub completion_guard-Admits :
    (c : BridgeOperation) → completion_guard c ≡ ok tt → Admits completing c
unfolding is_late_completion_state same_state same_kind
completion_guard-Admits c h = ground arith

-- Whatever a builder returns, the method was admitted and the result is the one foreseen.
pub build-eq-ok :
    (k : Call) (now : String) (c c' : BridgeOperation)
    → build k now c ≡ ok c'
    → Admits k c × (c' ≡ outcome_of k now c) × IsWellFormed (outcome_of k now c)
unfolding build
build-eq-ok starting now c c' h =
    built starting now c _ (λ p. ground (arith, same_state_iff c.state prepared)) h
build-eq-ok completing now c c' h = built completing now c _ (completion_guard-Admits c) h
build-eq-ok (failing code) now c c' h =
    built (failing code) now c _
      (λ p.
        ground (arith, same_state_iff c.state in_flight, same_state_iff c.state delivery_unknown))
      h
build-eq-ok (losing code) now c c' h =
    let (_, is_contact, rest) =
      >>=-eq-ok
        (raise_if (not (same_kind c.kind contact))
          (state_conflict "delivery_unknown_is_contact_only"))
        (λ _.
          raise_if (not (same_state c.state in_flight))
            (state_conflict "delivery_unknown_requires_in_flight")
          >> post_init (unknown_candidate now code c))
        h in
    built (losing code) now c _
      (λ p.
        ground (arith, is_contact, same_kind_iff c.kind contact, same_state_iff c.state in_flight))
      rest
build-eq-ok (waiting at) now c c' h =
    built (waiting at) now c _ (λ p. ground (arith, same_state_iff c.state failed_safe)) h
build-eq-ok releasing now c c' h =
    built releasing now c _ (λ p. ground (arith, same_state_iff c.state retry_wait)) h
build-eq-ok exhausting now c c' h =
    built exhausting now c _ (λ p. ground (arith, same_state_iff c.state failed_safe)) h
