-- ===== src/Tests/Operations.antt =====
-- The properties of the contract and the store at concrete operations.
use hermes_life_bridge.Prelude.{
  ◌+◌, ◌≡◌, ◌↔◌, inl, inr, refl, true, false, some, List, [], ◌∷◌, String, is_blank, is_exact_route,
  ◌==◌, if◌then◌else◌,
}
use hermes_life_bridge.Errors.{ok, err, state_conflict, operation_conflict}
use hermes_life_bridge.Contract.{
  OperationState, prepared, in_flight, retry_wait, completed, failed_safe, delivery_unknown,
  safe_failure, BridgeOperation, post_init, post_init_iff, IsWellFormed, SameIdentity, Move,
  allowed_iff, is_operation_transition_allowed, allowed_transition, is_late_completion_state,
  same_identity, attempt_fits, same_state, same_kind, Passes, here, then_move, count_state,
  attempt-History, History-terminal, unknown_never_retried,
}
use hermes_life_bridge.Store.{
  Database, find_id, find_key, validate_initial, operation_values, reserve, IsSound, Moved,
  starting, completing, call, Admits, outcome_of, call_total, call_effect, call_refused,
  call-IsSound, reserve_new, reserve_existing, reserve_twice,
}
use hermes_life_bridge.Tests.Fixtures.{
  fresh, second, second-IsWellFormed, lost_contact, two_rows, two_rows-IsSound, plain,
}

abbrev running : BridgeOperation
running = outcome_of starting "2026-01-01T00:00:05Z" fresh

post_init_iff_example : (post_init fresh ≡ ok fresh) ↔ (IsWellFormed fresh × (fresh ≡ fresh))
post_init_iff_example = post_init_iff fresh fresh

allowed_iff_example :
    (is_operation_transition_allowed fresh running ≡ true)
    ↔ (SameIdentity fresh running × Move fresh running)
allowed_iff_example = allowed_iff fresh running

fresh_starts : is_operation_transition_allowed fresh running ≡ true
unfolding is_operation_transition_allowed allowed_transition is_late_completion_state same_identity
    attempt_fits same_state same_kind
fresh_starts = refl

abbrev finished : BridgeOperation
finished = outcome_of completing "2026-01-01T00:00:09Z" running

running_finishes : is_operation_transition_allowed running finished ≡ true
unfolding is_operation_transition_allowed allowed_transition is_late_completion_state same_identity
    attempt_fits same_state same_kind
running_finishes = refl

attempt-History_example :
    finished.attempt ≡ fresh.attempt + count_state in_flight (in_flight ∷ completed ∷ [])
attempt-History_example = attempt-History (then_move fresh_starts (then_move running_finishes here))

History-terminal_example : (◌≡◌ {A = List OperationState} [] []) × (finished ≡ finished)
History-terminal_example = History-terminal (here {a = finished}) (inl refl)

abbrev reconciled : BridgeOperation
reconciled = record lost_contact { state = failed_safe; delivery_outcome = some safe_failure }

abbrev rescheduled : BridgeOperation
rescheduled = record reconciled {
  state = retry_wait;
  next_attempt_at = some "2026-01-02T00:00:00Z";
}

lost_fails : is_operation_transition_allowed lost_contact reconciled ≡ true
unfolding is_operation_transition_allowed allowed_transition is_late_completion_state same_identity
    attempt_fits same_state same_kind
lost_fails = refl

failed_waits : is_operation_transition_allowed reconciled rescheduled ≡ true
unfolding is_operation_transition_allowed allowed_transition is_late_completion_state same_identity
    attempt_fits same_state same_kind
failed_waits = refl

unknown_never_retried_example : Passes failed_safe (failed_safe ∷ retry_wait ∷ [])
unknown_never_retried_example =
    unknown_never_retried (then_move lost_fails (then_move failed_waits here)) refl (inr (inl refl))

call_total_example :
    (db' : Database) × (call starting "op_1" "2026-01-01T00:00:05Z" two_rows ≡ (ok running, db'))
    × Moved two_rows db' "op_1" fresh running
unfolding find_id is_blank
call_total_example =
    call_total two_rows two_rows-IsSound starting "op_1" "2026-01-01T00:00:05Z" fresh refl refl
      (refl, tt)

started_from_fresh :
    (db' : Database) × (call starting "op_1" "2026-01-01T00:00:05Z" two_rows ≡ (ok running, db'))
    × Moved two_rows db' "op_1" fresh running
unfolding find_id is_blank
started_from_fresh =
    call_total two_rows two_rows-IsSound starting "op_1" "2026-01-01T00:00:05Z" fresh refl refl
      (refl, tt)

call_effect_example :
    (c : BridgeOperation) × Admits starting c
    × (running ≡ outcome_of starting "2026-01-01T00:00:05Z" c)
    × Moved two_rows started_from_fresh.0 "op_1" c running
call_effect_example =
    call_effect two_rows two_rows-IsSound starting "op_1" "2026-01-01T00:00:05Z"
      started_from_fresh.1

call_refused_example :
    (m : String) × (call starting "op_2" "2026-01-01T00:00:05Z" two_rows
      ≡ (err (state_conflict m), two_rows))
unfolding find_id
call_refused_example =
    call_refused two_rows two_rows-IsSound starting "op_2" "2026-01-01T00:00:05Z" lost_contact refl
      not_prepared
  where
    not_prepared : ¬ (delivery_unknown ≡ prepared)
    not_prepared e = cc

call-IsSound_example : IsSound (call starting "op_1" "2026-01-01T00:00:05Z" two_rows).1
call-IsSound_example = call-IsSound two_rows two_rows-IsSound starting "op_1" "2026-01-01T00:00:05Z"

-- A request for another operation, one that reuses a key for another request, and one that reuses
-- an id.
abbrev changed : BridgeOperation
changed = record fresh {
  request_hash = "ff112233445566778899aabbccddeeff00112233445566778899aabbccddeeff";
}

abbrev renamed : BridgeOperation
renamed = record fresh { idempotency_key = "key_3" }

second_is_initial : validate_initial plain second ≡ ok tt
unfolding validate_initial is_exact_route same_state same_kind
second_is_initial = refl

changed_is_initial : validate_initial plain changed ≡ ok tt
unfolding validate_initial is_exact_route same_state same_kind
changed_is_initial = refl

renamed_is_initial : validate_initial plain renamed ≡ ok tt
unfolding validate_initial is_exact_route same_state same_kind
renamed_is_initial = refl

reserve_new_example :
    (reserve plain second two_rows
      ≡ (ok (second, true), record two_rows { operations = second ∷ fresh ∷ lost_contact ∷ [] }))
    × IsSound (record two_rows { operations = second ∷ fresh ∷ lost_contact ∷ [] })
unfolding operation_values find_id find_key same_kind
reserve_new_example =
    reserve_new plain second two_rows two_rows-IsSound second_is_initial second-IsWellFormed refl
      refl refl

reserve_existing_example : reserve plain changed two_rows ≡ (
  if fresh.request_hash == changed.request_hash
      then ok (fresh, false)
      else err (operation_conflict "idempotency_key_reused_with_different_request"),
  two_rows,
)
unfolding find_key same_kind
reserve_existing_example =
    reserve_existing plain changed two_rows two_rows-IsSound changed_is_initial fresh refl

reserve_twice_example :
    reserve plain second (reserve plain second two_rows).1
    ≡ (ok (second, false), (reserve plain second two_rows).1)
unfolding operation_values find_id find_key same_kind
reserve_twice_example =
    reserve_twice plain second two_rows two_rows-IsSound second_is_initial second-IsWellFormed refl
      refl refl
