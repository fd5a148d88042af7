-- ===== src/Errors.antt =====
-- The exceptions that the modelled modules raise, each with its message, and results that carry
-- them (operation_store.py, retry_engine.py, and Python's own classes).
use hermes_life_bridge.Prelude.{◌≡◌, refl, Bool, true, false, String}

pub data Fault : Type 0 where
  value_error key_error type_error : String → Fault
  state_conflict operation_conflict corruption : String → Fault
  -- sqlite3.IntegrityError
  integrity_error : Fault
  retry_engine_error timestamp_error : String → Fault
  -- A ContactReliabilityError: its code and its message.
  contact_error : String → String → Fault
  -- WorkContractError, WorkConflictError and WorkStoreCorruptionError
  work_contract_error work_conflict work_corruption : String → Fault

pub data Result {ℓ} (A : Type ℓ) : Type ℓ where
  ok : A → Result A
  err : Fault → Result A

-- What follows a raise is not reached.
module _ {ℓ κ} {A : Type ℓ} {B : Type κ} where
  infixl 5 ◌>>=◌
  abbrev pub ◌>>=◌ : Result A → (A → Result B) → Result B
  ◌>>=◌ (err fault) next = err fault
  ◌>>=◌ (ok value) next = next value

  -- Inversion of a chain that returned.
  pub >>=-eq-ok :
      (r : Result A) (next : A → Result B) {b : B}
      → (r >>= next) ≡ ok b
      → (a : A) × (r ≡ ok a) × (next a ≡ ok b)
  >>=-eq-ok (err fault) next returned = cc
  >>=-eq-ok (ok value) next returned = (value, refl, returned)

-- A check, then the rest.
infixl 5 ◌>>◌
abbrev pub ◌>>◌ {ℓ} : {B : Type ℓ} → Result (Unit {0}) → Result B → Result B
check >> rest = check >>= λ _. rest

-- `if test: raise e`
abbrev pub raise_if : Bool → Fault → Result (Unit {0})
raise_if true e = err e
raise_if false e = ok tt

-- `try: ... except Exception as exc: raise e from exc`
abbrev pub rethrow {ℓ} : {A : Type ℓ} → Result A → Fault → Result A
rethrow (ok a) e = ok a
rethrow (err _) e = err e

pub raise_if-eq-ok : (b : Bool) (e : Fault) → raise_if b e ≡ ok tt → b ≡ false
raise_if-eq-ok true e h = cc
raise_if-eq-ok false e h = refl

pub ok_inj {ℓ} : {A : Type ℓ} {a b : A} → ok a ≡ ok b → a ≡ b
ok_inj e = cc
