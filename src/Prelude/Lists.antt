-- ===== src/Prelude/Lists.antt =====
-- Lists measured by native numbers, and tables searched, filtered and updated by a test.
use Prim.Native.Nat.{ℕ, zero, suc, ◌+◌, ◌≤◌}
use mathlib.Core.Path.{◌≡◌, refl, ◌∙◌}
use mathlib.Core.Bool.{Bool, true, false}
use mathlib.Core.List.{List, [], ◌∷◌}
use mathlib.Core.Option.{Option, none, some}
use native.Mathlib.Omega.{arith}
use hermes_life_bridge.Prelude.Tests.{if◌then◌else◌}

module _ {ℓ} {A : Type ℓ} where
  abbrev pub length : List A → ℕ
  length [] = 0
  length (x ∷ xs) = suc (length xs)

  abbrev pub take : ℕ → List A → List A
  take zero xs = []
  take (suc n) [] = []
  take (suc n) (x ∷ xs) = x ∷ take n xs

  pub length-take-le : (n : ℕ) (xs : List A) → length (take n xs) ≤ n
  length-take-le zero xs = omega arith
  length-take-le (suc n) [] = omega arith
  length-take-le (suc n) (x ∷ xs) = omega (arith, length-take-le n xs)

  -- Every element satisfies `P`.
  abbrev pub All {κ} : (A → Type κ) → List A → Type κ
  All P [] = Unit
  All P (x ∷ xs) = P x × All P xs

  -- No two elements are the same by a test, the later one first in each pair.
  abbrev pub Distinct : (A → A → Bool) → List A → Type 0
  Distinct same [] = Unit
  Distinct same (x ∷ xs) = All (λ y. same y x ≡ false) xs × Distinct same xs

  -- SELECT ... WHERE test: the rows, and the first row.
  unfoldable pub select : (A → Bool) → List A → List A
  select test [] = []
  select test (x ∷ xs) = let rest = select test xs in if test x then x ∷ rest else rest

  unfoldable pub first : (A → Bool) → List A → Option A
  first test [] = none
  first test (x ∷ xs) = if test x then some x else first test xs

  -- UPDATE ... WHERE test, and its row count.
  unfoldable pub update_where : (A → Bool) → (A → A) → List A → List A
  update_where test f [] = []
  update_where test f (x ∷ xs) = (if test x then f x else x) ∷ update_where test f xs

  unfoldable pub count_where : (A → Bool) → List A → ℕ
  count_where test [] = 0
  count_where test (x ∷ xs) = (if test x then 1 else 0) + count_where test xs

  -- ORDER BY `before`, by insertion; rows of equal keys keep their order.
  unfoldable pub insert_by : (A → A → Bool) → A → List A → List A
  insert_by before x [] = x ∷ []
  insert_by before x (y ∷ ys) = if before y x then y ∷ insert_by before x ys else x ∷ y ∷ ys

  unfoldable pub order_by : (A → A → Bool) → List A → List A
  unfolding insert_by
  order_by before [] = []
  order_by before (x ∷ xs) = insert_by before x (order_by before xs)

pub All-map {ℓ κ μ} :
    {A : Type ℓ} {P : A → Type κ} {Q : A → Type μ} (xs : List A)
    → ((x : A) → P x → Q x)
    → All P xs
    → All Q xs
All-map [] f h = tt
All-map {P} {Q} (x ∷ xs) f h = (f x h.0, All-map {P = P} {Q = Q} xs f h.1)

module _ {ℓ} {A : Type ℓ} (test : A → Bool) where
  pub count_where_none : (xs : List A) → All (λ x. test x ≡ false) xs → count_where test xs ≡ 0
  unfolding count_where
  count_where_none [] h = refl
  count_where_none (x ∷ xs) h = rw (h.0, count_where_none xs h.1)

module _ {ℓ} {A : Type ℓ} (test : A → Bool) (f : A → A) where
  pub All-update_where {κ} :
      {P : A → Type κ} (xs : List A)
      → ((x : A) → test x ≡ true → P x → P (f x))
      → All P xs
      → All P (update_where test f xs)
  unfolding update_where
  All-update_where [] keep h = tt
  All-update_where {P} (x ∷ xs) keep h = (pick (test x) refl, All-update_where {P = P} xs keep h.1)
    where
      pick : (b : Bool) → test x ≡ b → P (if b then f x else x)
      pick true e = keep x e h.0
      pick false e = h.0

  -- An update that hits no row changes nothing.
  pub update_where_none : (xs : List A) → All (λ x. test x ≡ false) xs → update_where test f xs ≡ xs
  unfolding update_where
  update_where_none [] h = refl
  update_where_none (x ∷ xs) h = rw (h.0, update_where_none xs h.1)

  -- An update that leaves alone what `same` compares keeps rows distinct.
  pub Distinct-update_where :
      (same : A → A → Bool)
      → ((x y : A) → same (f x) y ≡ same x y)
      → ((x y : A) → same x (f y) ≡ same x y)
      → (xs : List A) → Distinct same xs
      → Distinct same (update_where test f xs)
  unfolding update_where
  Distinct-update_where same left right [] d = tt
  Distinct-update_where same left right (x ∷ xs) d = (
    All-update_where {P = λ y. same y (if test x then f x else x) ≡ false} xs
        (λ y _ e. left y _ ∙ e) (head (test x)),
    Distinct-update_where same left right xs d.1,
  )
    where
      head : (b : Bool) → All (λ y. same y (if b then f x else x) ≡ false) xs
      head true = All-map {P = λ y. same y x ≡ false} xs (λ y e. right y x ∙ e) d.0
      head false = d.0
