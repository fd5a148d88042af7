-- ===== src/Contract/Reach.antt =====
-- The guard on transitions against the moves of an operation's life.
use hermes_life_bridge.Prelude.{
  ◌+◌, ◌≤◌, ◌≡◌, ◌↔◌, ◌⊎◌, inl, inr, refl, Bool, true, arith, eq_iff, ◌||◌, ◌&&◌, eqb, leb,
  if◌then◌else◌,
}
use hermes_life_bridge.Contract.Types.{
  OperationState, prepared, in_flight, retry_wait, completed, failed_safe, delivery_unknown,
  exhausted, cognition, BridgeOperation, same_state, same_kind, same_kind_iff,
}
use hermes_life_bridge.Contract.Transitions.{
  allowed_transition, is_late_completion_state, same_identity, is_operation_transition_allowed,
}

-- The fields that no transition may change.
pub record SameIdentity (a b : BridgeOperation) : Type 0 where
  pub id_kept : b.operation_id ≡ a.operation_id
  pub kind_kept : b.kind ≡ a.kind
  pub key_kept : b.idempotency_key ≡ a.idempotency_key
  pub hash_kept : b.request_hash ≡ a.request_hash
  pub created_kept : b.created_at ≡ a.created_at
  pub version_kept : b.schema_version ≡ a.schema_version

-- One step of an operation's life.
pub data Move (a b : BridgeOperation) : Type 0 where
  start : a.state ≡ prepared → b.state ≡ in_flight → b.attempt ≡ a.attempt + 1 → Move a b
  settle :
      (a.state ≡ in_flight) ⊎ (a.state ≡ delivery_unknown)
      → (b.state ≡ completed) ⊎ (b.state ≡ failed_safe)
      → b.attempt ≡ a.attempt
      → Move a b
  lose : a.state ≡ in_flight → b.state ≡ delivery_unknown → b.attempt ≡ a.attempt → Move a b
  give_up : a.state ≡ failed_safe → b.state ≡ exhausted → b.attempt ≡ a.attempt → Move a b
  wait : a.state ≡ failed_safe → b.state ≡ retry_wait → b.attempt ≡ a.attempt → Move a b
  release : a.state ≡ retry_wait → b.state ≡ prepared → b.attempt ≡ a.attempt → Move a b
  -- Only a cognition that was attempted completes from a state in which nothing runs.
  late :
      a.kind ≡ cognition
      → 1 ≤ a.attempt
      → (a.state ≡ prepared) ⊎ (a.state ≡ failed_safe) ⊎ (a.state ≡ retry_wait)
      → b.state ≡ completed
      → b.attempt ≡ a.attempt
      → Move a b

pub same_identity_iff : (a b : BridgeOperation) → (same_identity a b ≡ true) ↔ SameIdentity a b
unfolding same_identity
same_identity_iff a b = ground (
  arith,
  same_kind_iff a.kind b.kind,
  eq_iff a.operation_id b.operation_id,
  eq_iff a.idempotency_key b.idempotency_key,
  eq_iff a.request_hash b.request_hash,
  eq_iff a.created_at b.created_at,
  eq_iff a.schema_version b.schema_version,
)

-- The part of the guard that reads states and attempts.
guard : (a b : BridgeOperation) → OperationState → OperationState → Bool
guard a b s t =
    (if same_state s prepared && same_state t in_flight
      then eqb b.attempt (a.attempt + 1)
      else eqb b.attempt a.attempt)
    && (allowed_transition s t
        || same_kind a.kind cognition
          && leb 1 a.attempt
          && is_late_completion_state s
          && same_state t completed)

module _ (a b : BridgeOperation) where
  move_of_guard :
      (s t : OperationState) → a.state ≡ s → b.state ≡ t → guard a b s t ≡ true → Move a b
  unfolding guard allowed_transition is_late_completion_state same_state same_kind
  move_of_guard prepared in_flight p q h = start p q (ground arith)
  move_of_guard in_flight completed p q h = settle (inl p) (inl q) (ground arith)
  move_of_guard in_flight failed_safe p q h = settle (inl p) (inr q) (ground arith)
  move_of_guard in_flight delivery_unknown p q h = lose p q (ground arith)
  move_of_guard failed_safe retry_wait p q h = wait p q (ground arith)
  move_of_guard failed_safe exhausted p q h = give_up p q (ground arith)
  move_of_guard retry_wait prepared p q h = release p q (ground arith)
  move_of_guard delivery_unknown completed p q h = settle (inr p) (inl q) (ground arith)
  move_of_guard delivery_unknown failed_safe p q h = settle (inr p) (inr q) (ground arith)
  move_of_guard prepared completed p q h =
      late (ground arith) (ground arith) (inl p) q (ground arith)
  move_of_guard failed_safe completed p q h =
      late (ground arith) (ground arith) (inr (inl p)) q (ground arith)
  move_of_guard retry_wait completed p q h =
      late (ground arith) (ground arith) (inr (inr p)) q (ground arith)
  move_of_guard _ _ p q h = absurd (ground arith)

  guard_of_move : Move a b → guard a b a.state b.state ≡ true
  unfolding guard allowed_transition is_late_completion_state same_state same_kind
  guard_of_move (start p q n) = ground arith
  guard_of_move (settle p q n) = ground arith
  guard_of_move (lose p q n) = ground arith
  guard_of_move (give_up p q n) = ground arith
  guard_of_move (wait p q n) = ground arith
  guard_of_move (release p q n) = ground arith
  guard_of_move (late k m p q n) = ground arith

  -- The guard on transitions accepts a pair of operations exactly if the identity fields are kept
  -- and the second is one of the seven moves of an operation's life away from the first.
  pub allowed_iff : (is_operation_transition_allowed a b ≡ true) ↔ (SameIdentity a b × Move a b)
  unfolding is_operation_transition_allowed guard
  allowed_iff = (
    λ h. (
      (same_identity_iff a b).0 (ground arith),
      move_of_guard a.state b.state refl refl (ground arith),
    ),
    λ (i, m). rw ((same_identity_iff a b).1 i) (guard_of_move m),
  )
