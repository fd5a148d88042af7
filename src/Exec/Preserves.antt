-- ===== src/Exec/Preserves.antt =====
-- Invariants of methods: what holds before a call holds after it, whether it returns or raises.
use hermes_life_bridge.Prelude.{◌≡◌, refl, Bool, true, false, Option, List, [], ◌∷◌, if◌then◌else◌}
use hermes_life_bridge.Errors.{Fault, Result, ok, err, state_conflict}
use hermes_life_bridge.Exec.{
  Exec, pure, raise, lift, reads, continue, caught, ◌>>=◌, skip_conflict, cons_some, collect,
}

pub record Preserves {ℓ} {S A : Type ℓ} (P : S → Type ℓ) (m : Exec S A) : Type ℓ where
  pub from : (s : S) → P s → P (m s).1

module _ {ℓ} {S A : Type ℓ} where
  caught_state : (r : Result A) (s : S) → (caught r s).1 ≡ s
  caught_state (ok a) s = refl
  caught_state (err (state_conflict m)) s = refl
  caught_state (err _) s = refl

module _ {ℓ} {S A : Type ℓ} {P : S → Type ℓ} where
  pub Preserves-lift : (r : Result A) → Preserves P (lift {S = S} r)
  Preserves-lift r = record { from = λ s h. h }

  pub Preserves-pure : (a : A) → Preserves P (pure {S = S} a)
  Preserves-pure a = record { from = λ s h. h }

  pub Preserves-raise : (e : Fault) → Preserves P (raise {S = S} {A = A} e)
  Preserves-raise e = record { from = λ s h. h }

  pub Preserves-if :
      (b : Bool) (m n : Exec S A)
      → (b ≡ true → Preserves P m)
      → (b ≡ false → Preserves P n)
      → Preserves P (if b then m else n)
  Preserves-if true m n h k = h refl
  Preserves-if false m n h k = k refl

  pub Preserves-skip_conflict : (m : Exec S A) → Preserves P m → Preserves P (skip_conflict m)
  Preserves-skip_conflict m h = record {
    from = λ s p. rw (caught_state (m s).0 (m s).1) (h.from s p);
  }

module _ {ℓ} {S A B : Type ℓ} where
  pub Preserves-continue :
      (P : S → Type ℓ) (r : Result A) (k : A → Exec S B) (s : S)
      → P s
      → ((a : A) → r ≡ ok a → P (k a s).1)
      → P (continue r k s).1
  Preserves-continue P (ok a) k s p h = h a refl
  Preserves-continue P (err e) k s p h = p

module _ {ℓ} {S A B : Type ℓ} {P : S → Type ℓ} where
  pub Preserves-bind :
      (m : Exec S A) (k : A → Exec S B)
      → Preserves P m
      → ((a : A) → Preserves P (k a))
      → Preserves P (m >>= k)
  Preserves-bind m k h g = record {
    from = λ s p.
        Preserves-continue P (m s).0 k (m s).1 (h.from s p)
          (λ a _. (g a).from (m s).1 (h.from s p));
  }

  -- What was read is known of the state in which the rest runs.
  pub Preserves-reads :
      (f : S → Result A) (k : A → Exec S B)
      → ((s : S) → P s → (a : A) → f s ≡ ok a → P (k a s).1)
      → Preserves P (reads f >>= k)
  Preserves-reads f k h = record {
    from = λ s p. Preserves-continue P (f s) k s p (λ a e. h s p a e);
  }

module _ {ℓ} {S A B : Type ℓ} {P : S → Type ℓ} where
  pub Preserves-collect :
      (f : A → Exec S (Option B)) (xs : List A)
      → ((a : A) → Preserves P (f a))
      → Preserves P (collect f xs)
  unfolding collect
  Preserves-collect f [] h = record { from = λ s p. p }
  Preserves-collect f (x ∷ xs) h = Preserves-bind (f x) _ (h x) (λ found.
      Preserves-bind (collect f xs) _ (Preserves-collect f xs h)
        (λ rest. Preserves-pure (cons_some found rest)))

-- The same where something more is known of the state before the call.
pub record PreservesWhere {ℓ} {S A : Type ℓ} (Q P : S → Type ℓ) (m : Exec S A) : Type ℓ where
  pub from : (s : S) → Q s → P s → P (m s).1

module _ {ℓ} {S A : Type ℓ} {Q P : S → Type ℓ} where
  pub PreservesWhere-any : (m : Exec S A) → Preserves P m → PreservesWhere Q P m
  PreservesWhere-any m h = record { from = λ s q p. h.from s p }

  pub PreservesWhere-if :
      (b : Bool) (m n : Exec S A)
      → (b ≡ true → PreservesWhere Q P m)
      → (b ≡ false → PreservesWhere Q P n)
      → PreservesWhere Q P (if b then m else n)
  PreservesWhere-if true m n h k = h refl
  PreservesWhere-if false m n h k = k refl

module _ {ℓ} {S A B : Type ℓ} {Q P : S → Type ℓ} where
  pub PreservesWhere-lift :
      (r : Result A) (k : A → Exec S B)
      → ((a : A) → PreservesWhere Q P (k a))
      → PreservesWhere Q P (lift r >>= k)
  PreservesWhere-lift (ok a) k h = record { from = λ s q p. (h a).from s q p }
  PreservesWhere-lift (err e) k h = record { from = λ s q p. p }

  pub PreservesWhere-bind :
      (m : Exec S A) (k : A → Exec S B)
      → PreservesWhere Q P m
      → ((a : A) → Preserves P (k a))
      → PreservesWhere Q P (m >>= k)
  PreservesWhere-bind m k h g = record {
    from = λ s q p.
        Preserves-continue P (m s).0 k (m s).1 (h.from s q p)
          (λ a _. (g a).from (m s).1 (h.from s q p));
  }
