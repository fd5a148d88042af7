-- ===== src/Retry/Delay.antt =====
-- `retry_delay_seconds`, in microseconds. The arithmetic is exact, and the result is rounded down,
-- where the source computes with floating-point seconds.
use Prim.Native.Nat.{min}
use Prim.Native.String.{◌++◌ as append}
use hermes_life_bridge.Prelude.{
  ℕ, zero, suc, ◌+◌, ◌-◌, ◌*◌, ◌/◌, ◌%◌, ◌^◌, not, ◌||◌, String, ltb, eqb, if◌then◌else◌,
}
use hermes_life_bridge.Errors.{Result, ok, retry_engine_error, raise_if, ◌>>◌}
use hermes_life_bridge.Contract.{
  RetryClass, percept, cognition, contact, BridgeOperation, RetryPolicy, same_kind,
}

unfoldable pub kind_value : RetryClass → String
kind_value percept = "percept"
kind_value cognition = "cognition"
kind_value contact = "contact"

digit_text : ℕ → String
digit_text d =
    if eqb d 0
    then "0"
    else if eqb d 1
    then "1"
    else if eqb d 2
    then "2"
    else if eqb d 3
    then "3"
    else if eqb d 4
    then "4"
    else if eqb d 5
    then "5"
    else if eqb d 6
    then "6"
    else if eqb d 7
    then "7"
    else if eqb d 8
    then "8"
    else "9"

-- A number has fewer digits than its value plus one, which is the fuel.
decimal_digits : ℕ → ℕ → String
unfolding digit_text
decimal_digits zero n = ""
decimal_digits (suc fuel) n =
    let front = decimal_digits fuel (n / 10) in
    if ltb n 10 then digit_text n else append front (digit_text (n % 10))

unfoldable pub decimal : ℕ → String
unfolding decimal_digits
decimal n = decimal_digits (n + 1) n

-- float((1 << 64) - 1)
abbrev pub unit_span : ℕ
unit_span = 2 ^ 64 - 1

-- The seed of `_deterministic_unit_interval`.
unfoldable pub retry_seed : BridgeOperation → String
unfolding kind_value decimal
retry_seed op = append (kind_value op.kind) (
    append "|" (
      append op.operation_id
        (append "|" (append op.idempotency_key (append "|" (decimal op.attempt))))))

-- The `while` loop: at most `remaining` factors, and none once the maximum is reached.
unfoldable pub grow : RetryPolicy → ℕ → ℕ → ℕ
grow policy zero nominal = nominal
grow policy (suc remaining) nominal =
    let more =
      grow policy remaining (min policy.max_backoff (nominal * policy.backoff_multiplier / 1000)) in
    if ltb nominal policy.max_backoff then more else nominal

-- `nominal * factor`, where `factor` is `1 + (2 * unit - 1) * jitter` and `unit` is `head` over the
-- span.
unfoldable pub jittered : RetryPolicy → ℕ → ℕ → ℕ
jittered policy head nominal = min policy.max_backoff (
    nominal
    * (1000 * unit_span + 2 * head * policy.jitter_ratio - unit_span * policy.jitter_ratio)
    / (1000 * unit_span))

-- `digest_head` is SHA-256 of a text, its first eight bytes read as a number.
module _ (digest_head : String → ℕ) where
  -- `retry_delay_seconds`
  unfoldable pub retry_delay : BridgeOperation → RetryPolicy → Result ℕ
  unfolding grow jittered
  retry_delay op policy = do
    raise_if (not (same_kind op.kind policy.retry_class))
        (retry_engine_error "retry_policy_class_mismatch")
    raise_if (ltb op.attempt 1) (retry_engine_error "retry_delay_requires_attempt")
    let nominal = grow policy (op.attempt - 1) policy.initial_backoff
    ok (
        if eqb policy.jitter_ratio 0 || eqb nominal 0
        then nominal
        else jittered policy (digest_head (retry_seed op)) nominal)
