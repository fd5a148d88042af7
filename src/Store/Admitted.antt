-- ===== src/Store/Admitted.antt =====
-- An admitted call always has its foreseen outcome, which is well-formed and allowed; any other
-- call is refused with a state conflict.
use hermes_life_bridge.Prelude.{
  ℕ, ◌≡◌, ◌⊎◌, inl, inr, refl, sym, subst, Bool, true, false, not, ◌||◌, Option, none, some, String,
  arith, is_blank, is_safe_token, Bool-cases,
}
use hermes_life_bridge.Errors.{Result, ok, err, state_conflict, raise_if, ◌>>◌}
use hermes_life_bridge.Contract.{
  OperationState, prepared, in_flight, retry_wait, completed, failed_safe, delivery_unknown,
  exhausted, RetryClass, percept, cognition, contact, DeliveryOutcome, not_attempted, delivered,
  safe_failure, unknown, BridgeOperation, same_state, same_kind, same_state_iff, same_kind_iff,
  post_init, post_init_iff, IsWellFormed, ScheduleFits, OutcomeFits, some_and,
  is_operation_transition_allowed, is_late_completion_state, SameIdentity, Move, start, settle,
  lose, give_up, wait, release, late, allowed_iff,
}
use hermes_life_bridge.Store.Transition.{contact_only, completion_guard}
use hermes_life_bridge.Store.Calls.{
  Call, starting, completing, releasing, exhausting, failing, losing, waiting, build, Admits,
  ArgumentsFit, outcome_of, completion_guard-Admits,
}

abbrev is_unsafe_code : String → Bool
is_unsafe_code s = not (is_safe_token s)

module _ (now : String) (c : BridgeOperation) (w : IsWellFormed c) where
  -- A successor of a well-formed operation: what else the constructor looks at.
  successor-IsWellFormed :
      (s : OperationState) (n : ℕ) (next : Option String) (o : Option DeliveryOutcome)
      (code : Option String)
      → is_blank now ≡ false
      → some_and is_blank next ≡ false
      → some_and is_unsafe_code code ≡ false
      → ScheduleFits s next
      → OutcomeFits c.kind s o
      → IsWellFormed (record c {
        state = s;
        attempt = n;
        updated_at = now;
        next_attempt_at = next;
        delivery_outcome = o;
        last_error_code = code;
      })
  successor-IsWellFormed s n next o code given time safe schedule outcome = record {
    texts = record {
      id_given = w.texts.id_given;
      key_given = w.texts.key_given;
      hash_given = w.texts.hash_given;
      created_given = w.texts.created_given;
      updated_given = given;
    };
    tokens = record {
      hash_hex = w.tokens.hash_hex;
      time_given = time;
      code_safe = safe;
      version = w.tokens.version;
    };
    schedule = schedule;
    outcome = outcome;
  }

untried_fits :
    (k : RetryClass)
    → OutcomeFits k in_flight (contact_only not_attempted k)
      × OutcomeFits k prepared (contact_only not_attempted k)
untried_fits contact = (inr refl, inr refl)
untried_fits percept = ((refl, λ e. cc), (refl, λ e. cc))
untried_fits cognition = ((refl, λ e. cc), (refl, λ e. cc))

settled_fits :
    (k : RetryClass)
    → OutcomeFits k completed (contact_only delivered k)
      × OutcomeFits k failed_safe (contact_only safe_failure k)
settled_fits contact = (refl, refl)
settled_fits percept = ((refl, λ e. cc), (refl, λ e. cc))
settled_fits cognition = ((refl, λ e. cc), (refl, λ e. cc))

-- A failure keeps its outcome while it waits or is given up.
kept_fits :
    (k : RetryClass) (o : Option DeliveryOutcome)
    → OutcomeFits k failed_safe o
    → OutcomeFits k retry_wait o × OutcomeFits k exhausted o
kept_fits contact o h = (h, h)
kept_fits percept o h = ((h.0, λ e. cc), (h.0, λ e. cc))
kept_fits cognition o h = ((h.0, λ e. cc), (h.0, λ e. cc))

module _ (now : String) (c : BridgeOperation) (w : IsWellFormed c) where
  failed_outcome : c.state ≡ failed_safe → OutcomeFits c.kind failed_safe c.delivery_outcome
  failed_outcome e = subst (λ s. OutcomeFits c.kind s c.delivery_outcome) e w.outcome

  pub outcome_of-IsWellFormed :
      (k : Call) → Admits k c → ArgumentsFit k now → IsWellFormed (outcome_of k now c)
  outcome_of-IsWellFormed starting a f =
      successor-IsWellFormed now c w _ _ none _ none f.0 refl refl refl (untried_fits c.kind).0
  outcome_of-IsWellFormed completing a f =
      successor-IsWellFormed now c w _ _ none _ none f.0 refl refl refl (settled_fits c.kind).0
  outcome_of-IsWellFormed (failing code) a f =
      successor-IsWellFormed now c w _ _ none _ code f.0 refl f.1 refl (settled_fits c.kind).1
  outcome_of-IsWellFormed (losing code) a f =
      successor-IsWellFormed now c w _ _ none _ code f.0 refl f.1 refl
        (subst (λ k. OutcomeFits k delivery_unknown (some unknown)) (sym a.0) refl)
  outcome_of-IsWellFormed (waiting at) a f =
      successor-IsWellFormed now c w _ _ (some at) _ c.last_error_code f.0 f.1 w.tokens.code_safe
        (at, refl) (kept_fits c.kind c.delivery_outcome (failed_outcome a)).0
  outcome_of-IsWellFormed releasing a f =
      successor-IsWellFormed now c w _ _ none _ none f.0 refl refl refl (untried_fits c.kind).1
  outcome_of-IsWellFormed exhausting a f =
      successor-IsWellFormed now c w _ _ none _ c.last_error_code f.0 refl w.tokens.code_safe refl
        (kept_fits c.kind c.delivery_outcome (failed_outcome a)).1

identity_kept :
    (k : Call) (now : String) (c : BridgeOperation) → SameIdentity c (outcome_of k now c)
identity_kept starting now c = ground arith
identity_kept _ now c = ground arith

outcome_of-Move :
    (k : Call) (now : String) (c : BridgeOperation) → Admits k c → Move c (outcome_of k now c)
outcome_of-Move starting now c a = start a refl refl
outcome_of-Move completing now c (inl a) = settle (inl a) (inl refl) refl
outcome_of-Move completing now c (inr (inl a)) = settle (inr a) (inl refl) refl
outcome_of-Move completing now c (inr (inr (k, n, a))) = late k n a refl refl
outcome_of-Move (failing code) now c a = settle a (inr refl) refl
outcome_of-Move (losing code) now c a = lose a.1 refl refl
outcome_of-Move (waiting at) now c a = wait a refl refl
outcome_of-Move releasing now c a = release a refl refl
outcome_of-Move exhausting now c a = give_up a refl refl

-- The foreseen outcome passes the guard on transitions.
pub outcome_of-allowed :
    (k : Call) (now : String) (c : BridgeOperation)
    → Admits k c
    → is_operation_transition_allowed c (outcome_of k now c) ≡ true
outcome_of-allowed k now c a =
    (allowed_iff c (outcome_of k now c)).1 (identity_kept k now c, outcome_of-Move k now c a)

accepted : {op : BridgeOperation} → IsWellFormed op → post_init op ≡ ok op
accepted {op} w = (post_init_iff op op).1 (w, refl)

completion_guard-ok : (c : BridgeOperation) → Admits completing c → completion_guard c ≡ ok tt
unfolding is_late_completion_state same_state same_kind
completion_guard-ok c a = ground arith

settles :
    (c : BridgeOperation)
    → (c.state ≡ in_flight) ⊎ (c.state ≡ delivery_unknown)
    → (same_state c.state in_flight || same_state c.state delivery_unknown) ≡ true
unfolding same_state
settles c a = ground arith

pub build_total :
    (k : Call) (now : String) (c : BridgeOperation)
    → Admits k c
    → IsWellFormed (outcome_of k now c)
    → build k now c ≡ ok (outcome_of k now c)
unfolding build
build_total starting now c a w = rw ((same_state_iff _ _).1 a) (accepted w)
build_total completing now c a w = rw (completion_guard-ok c a) (accepted w)
build_total (failing code) now c a w = rw (settles c a) (accepted w)
build_total (losing code) now c a w =
    rw ((same_kind_iff _ _).1 a.0, (same_state_iff _ _).1 a.1) (accepted w)
build_total (waiting at) now c a w = rw ((same_state_iff _ _).1 a) (accepted w)
build_total releasing now c a w = rw ((same_state_iff _ _).1 a) (accepted w)
build_total exhausting now c a w = rw ((same_state_iff _ _).1 a) (accepted w)

-- A guard either holds or raises the conflict that it names.
guarded :
    {P : Type 0} (b : Bool) (m : String) (r : Result BridgeOperation)
    → (b ≡ false → P)
    → P ⊎ ((m' : String) × ((raise_if b (state_conflict m) >> r) ≡ err (state_conflict m')))
guarded true m r holds = inr (m, refl)
guarded false m r holds = inl (holds refl)

is_state : (s t : OperationState) → not (same_state s t) ≡ false → s ≡ t
is_state s t h = ground (arith, same_state_iff s t)

is_settling :
    (s : OperationState)
    → not (same_state s in_flight || same_state s delivery_unknown) ≡ false
    → (s ≡ in_flight) ⊎ (s ≡ delivery_unknown)
unfolding same_state
is_settling s h = ground arith

completion_cases :
    (c : BridgeOperation) (r : Result BridgeOperation)
    → Admits completing c ⊎ ((m : String) × ((completion_guard c >> r) ≡ err (state_conflict m)))
completion_cases c r = elim (Bool-cases (is_late_completion_state c.state)) [
  | inl is_late ↦ rw is_late (guarded _ _ r (λ h. completion_guard-Admits c (rw (is_late, h))))
  | inr other ↦ rw other (guarded _ _ r (λ h. completion_guard-Admits c (rw (other, h))))
]

-- A call that is not admitted raises OperationStateConflict.
pub build_refused :
    (k : Call) (now : String) (c : BridgeOperation)
    → Admits k c ⊎ ((m : String) × (build k now c ≡ err (state_conflict m)))
unfolding build
build_refused starting now c = guarded _ _ _ (is_state c.state prepared)
build_refused completing now c = completion_cases c _
build_refused (failing code) now c = guarded _ _ _ (is_settling c.state)
build_refused (losing code) now c = elim (Bool-cases (same_kind c.kind contact)) [
  | inl k ↦ rw k (guarded _ _ _ (λ h. ((same_kind_iff _ _).0 k, is_state c.state in_flight h)))
  | inr k ↦ rw k (inr ("delivery_unknown_is_contact_only", refl))
]
build_refused (waiting at) now c = guarded _ _ _ (is_state c.state failed_safe)
build_refused releasing now c = guarded _ _ _ (is_state c.state retry_wait)
build_refused exhausting now c = guarded _ _ _ (is_state c.state failed_safe)
