-- ===== src/Exec.antt =====
-- Methods that change a state and may raise: what was written before a raise stays written, but
-- a transaction that raises is rolled back.
pub mod Preserves
use hermes_life_bridge.Prelude.{◌≡◌, refl, arith, Option, none, some, List, [], ◌∷◌}
use hermes_life_bridge.Errors.{Fault, state_conflict, Result, ok, err}

abbrev pub Exec {ℓ} : Type ℓ → Type ℓ → Type ℓ
Exec S A = S → Result A × S

module _ {ℓ} {S A : Type ℓ} where
  abbrev pub pure : A → Exec S A
  pure a s = (ok a, s)

  abbrev pub raise : Fault → Exec S A
  raise e s = (err e, s)

  -- A result that does not depend on the state.
  abbrev pub lift : Result A → Exec S A
  lift r s = (r, s)

  -- A computation that reads the state and may raise.
  abbrev pub reads : (S → Result A) → Exec S A
  reads f s = (f s, s)

  abbrev pub settle : S → Result (A × S) → Result A × S
  settle s (ok (a, s')) = (ok a, s')
  settle s (err e) = (err e, s)

  -- `BEGIN IMMEDIATE`, then COMMIT, or ROLLBACK and re-raise.
  unfoldable pub transaction : (S → Result (A × S)) → Exec S A
  transaction body s = settle s (body s)

module _ {ℓ} {S A B : Type ℓ} where
  abbrev pub continue : Result A → (A → Exec S B) → Exec S B
  continue (ok a) f s = f a s
  continue (err e) f s = (err e, s)

  infixl 5 ◌>>=◌ ◌>>◌
  abbrev pub ◌>>=◌ : Exec S A → (A → Exec S B) → Exec S B
  ◌>>=◌ m f s = continue (m s).0 f (m s).1

  abbrev pub ◌>>◌ : Exec S A → Exec S B → Exec S B
  m >> n = m >>= λ _. n

module _ {ℓ} {S A : Type ℓ} where
  abbrev pub caught : Result A → S → Result (Option A) × S
  caught (ok a) s = (ok (some a), s)
  caught (err (state_conflict m)) s = (ok none, s)
  caught (err e) s = (err e, s)

  -- `try: ... except OperationStateConflict: ...`, with `none` for the exception.
  abbrev pub skip_conflict : Exec S A → Exec S (Option A)
  skip_conflict m s = caught (m s).0 (m s).1

abbrev pub cons_some {ℓ} : {B : Type ℓ} → Option B → List B → List B
cons_some none bs = bs
cons_some (some b) bs = b ∷ bs

module _ {ℓ} {S A B : Type ℓ} where
  -- A `for` loop that appends a result in some rounds.
  unfoldable pub collect : (A → Exec S (Option B)) → List A → Exec S (List B)
  collect f [] = pure []
  collect f (x ∷ xs) = do found ← f x; rest ← collect f xs; pure (cons_some found rest)

pub settle-eq-ok {ℓ} :
    {S A : Type ℓ} (s : S) (r : Result (A × S)) {a : A} {s' : S}
    → settle s r ≡ (ok a, s')
    → r ≡ ok (a, s')
settle-eq-ok s (ok (b, t)) h = ground arith
settle-eq-ok s (err e) h = ground arith

pub settle-eq-err {ℓ} :
    {S A : Type ℓ} (s : S) (r : Result (A × S)) {e : Fault} {s' : S}
    → settle s r ≡ (err e, s')
    → s' ≡ s
settle-eq-err s (ok (b, t)) h = ground arith
settle-eq-err s (err e) h = ground arith

-- Inversion of a chain that returned.
pub continue-eq-ok {ℓ} :
    {S A B : Type ℓ} (r : Result A) (k : A → Exec S B) (s : S) {b : B} {s' : S}
    → continue r k s ≡ (ok b, s')
    → (a : A) × (r ≡ ok a) × (k a s ≡ (ok b, s'))
continue-eq-ok (ok a) k s h = (a, refl, h)
continue-eq-ok (err e) k s h = absurd (ground arith)

pub pair_eq {ℓ} : {A B : Type ℓ} {x : A × B} {a : A} {b : B} → x.0 ≡ a → x.1 ≡ b → x ≡ (a, b)
pair_eq p q = rw (p, q) refl
