-- ===== src/Retry/Backoff.antt =====
-- The backoff stays within its policy.
use Prim.Native.Nat.{min}
use native.Mathlib.Nat.{mul-le-mul_left}
use hermes_life_bridge.Prelude.{
  ℕ, zero, suc, ◌-◌, ◌*◌, ◌/◌, ◌≤◌, ◌≡◌, refl, Bool, true, false, ◌||◌, String, arith, ltb, eqb,
  if◌then◌else◌,
}
use hermes_life_bridge.Errors.{ok}
use hermes_life_bridge.Contract.{BridgeOperation, RetryPolicy, IsBounded, same_kind_iff}
use hermes_life_bridge.Retry.Delay.{grow, jittered, retry_seed, retry_delay}

min_le : (a b : ℕ) → min a b ≤ a
min_le a b = omega arith

-- Growth starts at or below the maximum, and every factor is cut off there.
grow_bounds :
    (p : RetryPolicy) (n nominal : ℕ)
    → 1000 ≤ p.backoff_multiplier
    → nominal ≤ p.max_backoff
    → (nominal ≤ grow p n nominal) × (grow p n nominal ≤ p.max_backoff)
unfolding grow
grow_bounds p zero nominal g h = (omega arith, h)
grow_bounds p (suc n) nominal g h =
    let more = min p.max_backoff (nominal * p.backoff_multiplier / 1000) in
    let rest =
      grow_bounds p n more g (min_le p.max_backoff (nominal * p.backoff_multiplier / 1000)) in
    choose (ltb nominal p.max_backoff) (grows nominal p.backoff_multiplier g) rest
  where
    grows : (a m : ℕ) → 1000 ≤ m → a ≤ a * m / 1000
    grows a m h = omega (arith, mul-le-mul_left a h)

    choose :
        (b : Bool)
        → nominal ≤ nominal * p.backoff_multiplier / 1000
        → (min p.max_backoff (nominal * p.backoff_multiplier / 1000)
            ≤ grow p n (min p.max_backoff (nominal * p.backoff_multiplier / 1000)))
          × (grow p n (min p.max_backoff (nominal * p.backoff_multiplier / 1000)) ≤ p.max_backoff)
        → (nominal ≤ (
            if b
            then grow p n (min p.max_backoff (nominal * p.backoff_multiplier / 1000))
            else nominal))
          × ((if b
                then grow p n (min p.max_backoff (nominal * p.backoff_multiplier / 1000))
                else nominal)
              ≤ p.max_backoff)
    choose true m r = (omega (arith, m, r.0, h), r.1)
    choose false m r = (omega arith, h)

-- Under an accepted policy, an operation of the policy's class that was attempted gets a delay,
-- which is at most max_backoff whatever the jitter, and without jitter at least initial_backoff.
pub retry_delay_bounds :
    (digest_head : String → ℕ) (op : BridgeOperation) (p : RetryPolicy)
    → IsBounded p
    → op.kind ≡ p.retry_class
    → 1 ≤ op.attempt
    → (delay : ℕ) × (retry_delay digest_head op p ≡ ok delay)
      × (delay ≤ p.max_backoff)
      × (p.jitter_ratio ≡ 0 → p.initial_backoff ≤ delay)
unfolding retry_delay jittered
retry_delay_bounds digest_head op p bounded same tried = (
  delay,
  rw ((same_kind_iff op.kind p.retry_class).1 same, tested op.attempt tried) refl,
  below (eqb p.jitter_ratio 0 || eqb nominal 0),
  unjittered,
)
  where
    nominal : ℕ
    nominal = grow p (op.attempt - 1) p.initial_backoff

    delay : ℕ
    delay =
        if eqb p.jitter_ratio 0 || eqb nominal 0
        then nominal
        else jittered p (digest_head (retry_seed op)) nominal

    grown : (p.initial_backoff ≤ nominal) × (nominal ≤ p.max_backoff)
    grown = grow_bounds p (op.attempt - 1) p.initial_backoff bounded.growth bounded.backoff

    tested : (n : ℕ) → 1 ≤ n → ltb n 1 ≡ false
    tested n h = ground arith

    below :
        (b : Bool)
        → (if b then nominal else jittered p (digest_head (retry_seed op)) nominal) ≤ p.max_backoff
    below true = grown.1
    below false = min_le p.max_backoff _

    unjittered : p.jitter_ratio ≡ 0 → p.initial_backoff ≤ delay
    unjittered z = rw z grown.0
