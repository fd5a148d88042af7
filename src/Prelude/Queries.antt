-- ===== src/Prelude/Queries.antt =====
-- What holds of the rows that a selection keeps and an ordering arranges.
use mathlib.Core.Path.{◌≡◌, refl}
use mathlib.Core.Bool.{Bool, true, false}
use mathlib.Core.List.{List, [], ◌∷◌}
use hermes_life_bridge.Prelude.Tests.{if◌then◌else◌}
use hermes_life_bridge.Prelude.Lists.{All, Distinct, select, insert_by, order_by}

module _ {ℓ κ} {A : Type ℓ} (P : A → Type κ) where
  All-if : (b : Bool) (xs ys : List A) → All P xs → All P ys → All P (if b then xs else ys)
  All-if true xs ys h k = h
  All-if false xs ys h k = k

  pub All-select : (test : A → Bool) (xs : List A) → All P xs → All P (select test xs)
  unfolding select
  All-select test [] h = tt
  All-select test (x ∷ xs) h =
      let rest = All-select test xs h.1 in All-if (test x) (x ∷ select test xs) _ (h.0, rest) rest

  pub All-insert_by :
      (before : A → A → Bool) (x : A) (xs : List A) → P x → All P xs → All P (insert_by before x xs)
  unfolding insert_by
  All-insert_by before x [] p h = (p, tt)
  All-insert_by before x (y ∷ ys) p h =
      All-if (before y x) (y ∷ insert_by before x ys) (x ∷ y ∷ ys)
        (h.0, All-insert_by before x ys p h.1) (p, h)

  pub All-order_by : (before : A → A → Bool) (xs : List A) → All P xs → All P (order_by before xs)
  unfolding order_by
  All-order_by before [] h = tt
  All-order_by before (x ∷ xs) h =
      All-insert_by before x (order_by before xs) h.0 (All-order_by before xs h.1)

pub All-both {ℓ κ μ} :
    {A : Type ℓ} (P : A → Type κ) (Q : A → Type μ) (xs : List A)
    → All P xs
    → All Q xs
    → All (λ x. P x × Q x) xs
All-both P Q [] p q = tt
All-both P Q (x ∷ xs) p q = ((p.0, q.0), All-both P Q xs p.1 q.1)

module _ {ℓ} {A : Type ℓ} (test : A → Bool) where
  keep_if :
      (b : Bool) (x : A) (rest : List A)
      → test x ≡ b
      → All (λ y. test y ≡ true) rest
      → All (λ y. test y ≡ true) (if b then x ∷ rest else rest)
  keep_if true x rest e h = (e, h)
  keep_if false x rest e h = h

  -- The rows that a test selects pass it.
  pub select-All : (xs : List A) → All (λ x. test x ≡ true) (select test xs)
  unfolding select
  select-All [] = tt
  select-All (x ∷ xs) = keep_if (test x) x (select test xs) refl (select-All xs)

  Distinct-if :
      (same : A → A → Bool) (b : Bool) (x : A) (rest : List A)
      → All (λ y. same y x ≡ false) rest
      → Distinct same rest
      → Distinct same (if b then x ∷ rest else rest)
  Distinct-if same true x rest h d = (h, d)
  Distinct-if same false x rest h d = d

  pub Distinct-select :
      (same : A → A → Bool) (xs : List A) → Distinct same xs → Distinct same (select test xs)
  unfolding select
  Distinct-select same [] d = tt
  Distinct-select same (x ∷ xs) d =
      Distinct-if same (test x) x (select test xs) (All-select (λ y. same y x ≡ false) test xs d.0)
        (Distinct-select same xs d.1)
