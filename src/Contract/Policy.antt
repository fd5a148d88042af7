-- ===== src/Contract/Policy.antt =====
-- RetryPolicy. Seconds are counted in microseconds, and the two ratios in thousandths. `policy_init`
-- takes any Python numbers; the retry engine is modelled for policies of finite numbers from 0.
use hermes_life_bridge.Prelude.{
  ℕ, ◌≡◌, refl, sym, ap, subst, ◌∙◌, ◌≤◌, Bool, true, false, not, ◌&&◌, String, ltb, leb, ◌==◌,
  arith,
}
use hermes_life_bridge.Errors.{Result, ok, value_error, raise_if, ◌>>◌}
use hermes_life_bridge.Contract.Types.{RetryClass, contact, same_kind}

pub record RetryPolicy : Type 0 where
  pub retry_class : RetryClass
  pub max_attempts : ℕ
  pub initial_backoff : ℕ
  pub max_backoff : ℕ
  pub backoff_multiplier : ℕ
  pub jitter_ratio : ℕ
  pub retry_after_failed_safe : Bool
  pub retry_after_delivery_unknown : Bool
  pub requires_durable_state : Bool
  pub reconcile_before_retry : Bool
  pub schema_version : String

pub data ℤ : Type 0 where
  pos negsuc : ℕ → ℤ

-- A Python number: an integer or a float, finite ones as a count of units.
pub data Number : Type 0 where
  nan minus_infinity infinity : Number
  finite : ℤ → Number

abbrev less_int : ℤ → ℤ → Bool
less_int (pos a) (pos b) = ltb a b
less_int (pos a) (negsuc b) = false
less_int (negsuc a) (pos b) = true
less_int (negsuc a) (negsuc b) = ltb b a

-- Python's `<`, which holds of no NaN.
abbrev less : Number → Number → Bool
less nan y = false
less x nan = false
less minus_infinity minus_infinity = false
less minus_infinity y = true
less infinity y = false
less (finite a) minus_infinity = false
less (finite a) infinity = true
less (finite a) (finite b) = less_int a b

-- `0 <= x <= bound`, which no NaN passes.
abbrev is_within : ℕ → Number → Bool
is_within bound (finite (pos n)) = leb n bound
is_within bound _ = false

-- The arguments of the constructor.
pub record PolicyFields : Type 0 where
  pub retry_class : RetryClass
  pub max_attempts : ℤ
  pub initial_backoff : Number
  pub max_backoff : Number
  pub backoff_multiplier : Number
  pub jitter_ratio : Number
  pub retry_after_failed_safe : Bool
  pub retry_after_delivery_unknown : Bool
  pub requires_durable_state : Bool
  pub reconcile_before_retry : Bool
  pub schema_version : String

-- `__post_init__`, after the tests of types
unfoldable pub policy_init : PolicyFields → Result PolicyFields
unfolding same_kind
policy_init p = do
  raise_if (less_int p.max_attempts (pos 1)) (value_error "max_attempts_must_be_bounded_positive")
  raise_if (less p.initial_backoff (finite (pos 0)))
      (value_error "initial_backoff_seconds_must_be_non_negative")
  raise_if (less p.max_backoff p.initial_backoff) (value_error "max_backoff_seconds_below_initial")
  raise_if (less p.backoff_multiplier (finite (pos 1000)))
      (value_error "backoff_multiplier_must_be_at_least_one")
  raise_if (not (is_within 1000 p.jitter_ratio)) (value_error "jitter_ratio_out_of_range")
  raise_if (same_kind p.retry_class contact && p.retry_after_delivery_unknown)
      (value_error "contact_delivery_unknown_must_not_blind_retry")
  raise_if (not (p.schema_version == "v0.4")) (value_error "unsupported_reliability_schema_version")
  ok p

-- The arguments that make a policy of the engine.
abbrev pub fields_of : RetryPolicy → PolicyFields
fields_of p = record {
  retry_class = p.retry_class;
  max_attempts = pos p.max_attempts;
  initial_backoff = finite (pos p.initial_backoff);
  max_backoff = finite (pos p.max_backoff);
  backoff_multiplier = finite (pos p.backoff_multiplier);
  jitter_ratio = finite (pos p.jitter_ratio);
  retry_after_failed_safe = p.retry_after_failed_safe;
  retry_after_delivery_unknown = p.retry_after_delivery_unknown;
  requires_durable_state = p.requires_durable_state;
  reconcile_before_retry = p.reconcile_before_retry;
  schema_version = p.schema_version;
}

-- What the rest of the program may rely on in a policy.
pub record IsBounded (p : RetryPolicy) : Type 0 where
  pub attempts : 1 ≤ p.max_attempts
  pub backoff : p.initial_backoff ≤ p.max_backoff
  pub growth : 1000 ≤ p.backoff_multiplier
  pub jitter : p.jitter_ratio ≤ 1000
  pub no_blind_retry : p.retry_class ≡ contact → p.retry_after_delivery_unknown ≡ false

-- An accepted policy of finite numbers from 0 is one to rely on.
pub policy_init-IsBounded :
    (p : RetryPolicy) → policy_init (fields_of p) ≡ ok (fields_of p) → IsBounded p
unfolding policy_init
policy_init-IsBounded p h = record {
  attempts = ground arith;
  backoff = ground arith;
  growth = ground arith;
  jitter = ground arith;
  no_blind_retry = λ e. ground arith;
}

-- An integer that is not less than a natural number is a natural number.
not_less_int : (k : ℕ) (z : ℤ) → less_int z (pos k) ≡ false → (n : ℕ) × (z ≡ pos n) × (k ≤ n)
not_less_int k (pos n) h = (n, refl, ground arith)
not_less_int k (negsuc n) h = absurd (clash h)
  where
    clash : true ≡ false → ⊥
    clash e = cc

within_natural :
    (bound : ℕ) (x : Number) → is_within bound x ≡ true → (n : ℕ) × (x ≡ finite (pos n))
within_natural bound nan h = cc
within_natural bound minus_infinity h = cc
within_natural bound infinity h = cc
within_natural bound (finite (negsuc n)) h = cc
within_natural bound (finite (pos n)) h = (n, refl)

-- The numbers of an accepted policy.
policy_tests :
    (f : PolicyFields)
    → policy_init f ≡ ok f
    → (less_int f.max_attempts (pos 1) ≡ false)
      × (less f.initial_backoff (finite (pos 0)) ≡ false)
      × (less f.max_backoff f.initial_backoff ≡ false)
      × (less f.backoff_multiplier (finite (pos 1000)) ≡ false)
      × (is_within 1000 f.jitter_ratio ≡ true)
unfolding policy_init
policy_tests f h = (ground arith, ground arith, ground arith, ground arith, ground arith)

-- Arguments that the constructor accepts, whose backoffs and multiplier are neither NaN nor
-- infinite, are those of a policy of natural numbers, with at least one attempt, a maximum backoff
-- of at least the initial one, a multiplier of at least one, a jitter of at most one, and no retry
-- of a contact whose delivery is unknown.
pub policy_init-finite :
    (f : PolicyFields) (initial maximum multiplier : ℤ)
    → f.initial_backoff ≡ finite initial
    → f.max_backoff ≡ finite maximum
    → f.backoff_multiplier ≡ finite multiplier
    → policy_init f ≡ ok f
    → (p : RetryPolicy) × (fields_of p ≡ f) × IsBounded p
policy_init-finite f initial maximum multiplier i m g h =
    let (t1, t2, t3, t4, t5) = policy_tests f h in
    let (attempts, e1, _) = not_less_int 1 f.max_attempts t1 in
    let (low, e2, _) = not_less_int 0 initial (rw i at t2) in
    let (high, e3, _) = not_less_int low maximum (rw (m, i, e2) at t3) in
    let (growth, e4, _) = not_less_int 1000 multiplier (rw g at t4) in
    let (jitter, e5) = within_natural 1000 f.jitter_ratio t5 in
    let p : RetryPolicy = record {
      retry_class = f.retry_class;
      max_attempts = attempts;
      initial_backoff = low;
      max_backoff = high;
      backoff_multiplier = growth;
      jitter_ratio = jitter;
      retry_after_failed_safe = f.retry_after_failed_safe;
      retry_after_delivery_unknown = f.retry_after_delivery_unknown;
      requires_durable_state = f.requires_durable_state;
      reconcile_before_retry = f.reconcile_before_retry;
      schema_version = f.schema_version;
    } in
    let same : fields_of p ≡ f = λ k. record f {
      max_attempts = sym e1 k;
      initial_backoff = sym (i ∙ ap finite e2) k;
      max_backoff = sym (m ∙ ap finite e3) k;
      backoff_multiplier = sym (g ∙ ap finite e4) k;
      jitter_ratio = sym e5 k;
    } in
    (p, same, policy_init-IsBounded p (subst (λ x. policy_init x ≡ ok x) (sym same) h))
