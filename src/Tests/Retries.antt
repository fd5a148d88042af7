-- ===== src/Tests/Retries.antt =====
-- The properties of the retry engine at concrete stores.
use hermes_life_bridge.Prelude.{
  is_blank, is_sha256_hex, count_where, first, update_where, codes, every, has_prefix,
  is_safe_token, is_space, ℕ, ◌≤◌, ◌≡◌, refl, Bool, false, Option, none, some, String, arith,
}
use hermes_life_bridge.Errors.{Result, ok}
use hermes_life_bridge.Calendar.{
  parse_timestamp, format_timestamp, expand_zulu, normalize_stamp, replace_offset, strip_left,
  strip_right,
}
use hermes_life_bridge.Exec.{transaction}
use hermes_life_bridge.Contract.{
  post_init, check_texts, check_tokens, check_schedule, check_outcome, same_state, same_kind,
  allowed_transition, attempt_fits, is_late_completion_state, is_operation_transition_allowed,
  same_identity, check_contact_outcome, check_no_outcome, policy_init, policy_init-IsBounded,
  policy_init-finite, pos, RetryPolicy, PolicyFields, fields_of, nan, same_kind, IsBounded,
  BridgeOperation, in_flight,
}
use hermes_life_bridge.Store.{
  get, row_to_operation, start_attempt, transition_transaction, load_for_update, build_start,
  is_version, persist_transition, state_value, transition_body, AtLeast, tried, Database, find_id,
  failing, waiting, call,
}
use hermes_life_bridge.Retry.{
  begin_attempt_first, RetryDisposition, policy_for, cognition_retry_policy, default_retry_policies,
  schedule_failed_safe, begin_attempt, IsWithin, IsLimited, Run, still, then_step, scheduling,
  beginning, moving, Run-IsLimited, retry_delay, retry_delay_bounds,
}
use hermes_life_bridge.Tests.Fixtures.{fresh, two_rows, two_rows-IsSound}
use hermes_life_bridge.Tests.Clock.{marked}

abbrev lax : PolicyFields
lax = record (fields_of cognition_retry_policy) { max_backoff = nan; backoff_multiplier = nan }

-- The tests of the constructor hold of no NaN.
nan_accepted : policy_init lax ≡ ok lax
unfolding policy_init same_kind
nan_accepted = refl

policy_init-finite_example :
    (p : RetryPolicy) × (fields_of p ≡ fields_of cognition_retry_policy) × IsBounded p
unfolding policy_init same_kind
policy_init-finite_example =
    policy_init-finite (fields_of cognition_retry_policy) (pos 1_000_000) (pos 8_000_000) (pos 2000)
      refl refl refl refl

cognition_retry_policy-IsBounded : IsBounded cognition_retry_policy
unfolding policy_init same_kind
cognition_retry_policy-IsBounded = policy_init-IsBounded cognition_retry_policy refl

two_rows-IsWithin :
    (id : String) (op : BridgeOperation)
    → find_id id two_rows.operations ≡ some op
    → IsWithin default_retry_policies op
unfolding find_id policy_for
two_rows-IsWithin id op h = record { bounded = ground arith; room = λ e. ground arith }

two_rows-IsLimited : IsLimited default_retry_policies two_rows
two_rows-IsLimited = record { sound = two_rows-IsSound; within = two_rows-IsWithin }

abbrev after_start : Database
after_start = (begin_attempt marked (λ s. 7) default_retry_policies "op_1" "II" none two_rows).1

abbrev after_failure : Database
after_failure = (call (failing (some "timeout")) "op_1" "III" after_start).1

abbrev accepts_none : Option (BridgeOperation → Result Bool)
accepts_none = some (λ op. ok false)

abbrev after_wait : Database
after_wait =
    (schedule_failed_safe marked (λ s. 7) default_retry_policies "op_1" "IIII" accepts_none
      after_failure).1

not_waiting : (at : String) → ¬ (failing (some "timeout") ≡ waiting at)
not_waiting at e = cc

-- The operation starts, fails, and is scheduled again.
tried_once : Run marked (λ s. 7) default_retry_policies two_rows after_wait
tried_once = then_step (beginning two_rows "op_1" "II" none) (
    then_step (moving after_start (failing (some "timeout")) "op_1" "III" not_waiting)
      (then_step (scheduling after_failure "op_1" "IIII" accepts_none) (still after_wait)))

Run-IsLimited_example : IsLimited default_retry_policies after_wait
Run-IsLimited_example =
    Run-IsLimited marked (λ s. 7) default_retry_policies tried_once two_rows-IsLimited

retry_delay_bounds_example :
    (delay : ℕ) × (retry_delay (λ s. 7) (record fresh { attempt = 2 }) cognition_retry_policy
      ≡ ok delay)
    × (delay ≤ 8_000_000)
    × (◌≡◌ {A = ℕ} 200 0 → 1_000_000 ≤ delay)
retry_delay_bounds_example =
    retry_delay_bounds (λ s. 7) (record fresh { attempt = 2 }) cognition_retry_policy
      cognition_retry_policy-IsBounded refl (omega arith)

abbrev started_row : BridgeOperation
started_row = record fresh { state = in_flight; attempt = 1; updated_at = "II" }

abbrev none_tried : String → ℕ
none_tried id = 0

none_needed : AtLeast none_tried two_rows
none_needed = record { ids = ((refl, tt), (tt, tt)); reached = λ id. omega arith }

begin_attempt_first_example : (started_row.operation_id ≡ "op_1") × (tried "op_1" after_start ≡ 1)
unfolding begin_attempt find_id marked policy_for get row_to_operation start_attempt
    transition_transaction load_for_update build_start is_version persist_transition state_value
    transition_body post_init check_texts check_tokens check_schedule check_outcome same_state
    same_kind allowed_transition attempt_fits is_late_completion_state
    is_operation_transition_allowed same_identity check_contact_outcome check_no_outcome is_blank
    is_sha256_hex count_where first update_where codes every has_prefix is_safe_token is_space
    parse_timestamp format_timestamp expand_zulu normalize_stamp replace_offset strip_left
    strip_right transaction
begin_attempt_first_example =
    begin_attempt_first marked (λ s. 7) default_retry_policies none_tried "op_1" "II" none two_rows
      none_needed refl
      {r = record { disposition = RetryDisposition.started; operation = started_row; delay = none }}
      {db' = after_start} refl
