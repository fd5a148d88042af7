-- ===== src/Prelude/Sorting.antt =====
-- ORDER BY gives ordered rows, and the order of texts.
use Prim.Native.Nat.{Ordering, compare as compare_ℕ}
use Prim.Native.Char.{code}
use Prim.Native.String.compare
use Prim.Native.String.{String, compare, then as in_turn}
use mathlib.Core.Path.{◌≡◌, refl, sym, ap, ◌∙◌}
use mathlib.Core.Bool.{Bool, true, false, ◌&&◌, ◌||◌}
use mathlib.Core.List.{List, [], ◌∷◌}
use text.Mathlib.Text.{is_lt, is_eq, ◌==◌}
use text.Mathlib.TextEquality.{eq_iff}
use native.Mathlib.Omega.{arith}
use hermes_life_bridge.Prelude.Tests.{if◌then◌else◌, ltb, eqb}
use hermes_life_bridge.Prelude.Lists.{All, All-map, Distinct, insert_by, order_by}
use hermes_life_bridge.Prelude.Queries.{All-insert_by, All-order_by}
use hermes_life_bridge.Prelude.Texts.{text_lt}

lt-then : (x o : Ordering) → is_lt (in_turn x o) ≡ (is_lt x || is_eq x && is_lt o)
lt-then Ordering.lt o = refl
lt-then Ordering.eq o = refl
lt-then Ordering.gt o = refl

-- The first code decides, or else the rest.
text_lt-cons :
    (c d : _) (s t : String)
    → text_lt (String.◌∷◌ c s) (String.◌∷◌ d t)
      ≡ (ltb (code c) (code d) || eqb (code c) (code d) && text_lt s t)
text_lt-cons c d s t =
    ap is_lt (compare.cons-cons c d s t) ∙ lt-then (compare_ℕ (code c) (code d)) (compare s t)

pub text_lt_asymm : (s t : String) → text_lt s t ≡ true → text_lt t s ≡ false
text_lt_asymm String.[] String.[] h = ap is_lt compare.nil-nil
text_lt_asymm String.[] (String.◌∷◌ d t) h = ap is_lt (compare.cons-nil d t)
text_lt_asymm (String.◌∷◌ c s) String.[] h =
    absurd (clash (sym h ∙ ap is_lt (compare.cons-nil c s)))
  where
    clash : true ≡ false → ⊥
    clash e = cc
text_lt_asymm (String.◌∷◌ c s) (String.◌∷◌ d t) h =
    ground (arith, h, text_lt-cons c d s t, text_lt-cons d c t s, text_lt_asymm s t)

pub text_ge_trans :
    (s t u : String) → text_lt s t ≡ false → text_lt t u ≡ false → text_lt s u ≡ false
text_ge_trans String.[] String.[] u h k = k
text_ge_trans String.[] (String.◌∷◌ d t) u h k =
    absurd (clash (sym h ∙ ap is_lt (compare.nil-cons d t)))
  where
    clash : false ≡ true → ⊥
    clash e = cc
text_ge_trans (String.◌∷◌ c s) t String.[] h k = ap is_lt (compare.cons-nil c s)
text_ge_trans (String.◌∷◌ c s) String.[] (String.◌∷◌ e u) h k =
    absurd (clash (sym k ∙ ap is_lt (compare.nil-cons e u)))
  where
    clash : false ≡ true → ⊥
    clash e = cc
text_ge_trans (String.◌∷◌ c s) (String.◌∷◌ d t) (String.◌∷◌ e u) h k = ground (
  arith,
  h,
  k,
  text_lt-cons c d s t,
  text_lt-cons d e t u,
  text_lt-cons c e s u,
  text_ge_trans s t u,
)

pub not_equal : (s t : String) → (t == s) ≡ false → (s == t) ≡ false
not_equal s t h = ground (arith, eq_iff s t, eq_iff t s)

module _ {ℓ} {A : Type ℓ} (before : A → A → Bool) where
  -- No later row comes before an earlier one.
  abbrev pub Ordered : List A → Type 0
  Ordered [] = Unit
  Ordered (x ∷ xs) = All (λ y. before y x ≡ false) xs × Ordered xs

  module _ (asymm : (x y : A) → before x y ≡ true → before y x ≡ false)
      (later : (x y z : A) → before y x ≡ false → before z y ≡ false → before z x ≡ false) where
    insert_by-Ordered : (x : A) (xs : List A) → Ordered xs → Ordered (insert_by before x xs)
    unfolding insert_by
    insert_by-Ordered x [] o = (tt, tt)
    insert_by-Ordered x (y ∷ ys) o = place (before y x) refl (insert_by-Ordered x ys o.1)
      where
        place :
            (b : Bool)
            → before y x ≡ b
            → Ordered (insert_by before x ys)
            → Ordered (if b then y ∷ insert_by before x ys else x ∷ y ∷ ys)
        place true e rest =
            (All-insert_by (λ z. before z y ≡ false) before x ys (asymm y x e) o.0, rest)
        place false e rest =
            ((e, All-map {P = λ z. before z y ≡ false} ys (λ z k. later x y z e k) o.0), o)

    pub order_by-Ordered : (xs : List A) → Ordered (order_by before xs)
    unfolding order_by
    order_by-Ordered [] = tt
    order_by-Ordered (x ∷ xs) = insert_by-Ordered x (order_by before xs) (order_by-Ordered xs)

  insert_by-All :
      (P : A → Type 0) (x : A) (xs : List A) → All P (insert_by before x xs) → P x × All P xs
  unfolding insert_by
  insert_by-All P x [] h = h
  insert_by-All P x (y ∷ ys) h = place (before y x) h (insert_by-All P x ys)
    where
      place :
          (b : Bool)
          → All P (if b then y ∷ insert_by before x ys else x ∷ y ∷ ys)
          → (All P (insert_by before x ys) → P x × All P ys)
          → P x × (P y × All P ys)
      place true h rest = ((rest h.1).0, (h.0, (rest h.1).1))
      place false h rest = h

  -- What holds of the ordered rows holds of the rows.
  pub order_by-All : (P : A → Type 0) (xs : List A) → All P (order_by before xs) → All P xs
  unfolding order_by
  order_by-All P [] h = tt
  order_by-All P (x ∷ xs) h =
      let (here, rest) = insert_by-All P x (order_by before xs) h in (here, order_by-All P xs rest)

  -- Ordering keeps rows distinct.
  module _ (same : A → A → Bool) (symmetric : (x y : A) → same x y ≡ false → same y x ≡ false) where
    insert_by-Distinct :
        (x : A) (xs : List A)
        → All (λ y. same y x ≡ false) xs
        → Distinct same xs
        → Distinct same (insert_by before x xs)
    unfolding insert_by
    insert_by-Distinct x [] h d = (tt, tt)
    insert_by-Distinct x (y ∷ ys) h d = place (before y x) (insert_by-Distinct x ys h.1 d.1)
      where
        place :
            (b : Bool)
            → Distinct same (insert_by before x ys)
            → Distinct same (if b then y ∷ insert_by before x ys else x ∷ y ∷ ys)
        place true rest =
            (All-insert_by (λ z. same z y ≡ false) before x ys (symmetric y x h.0) d.0, rest)
        place false rest = (h, d)

    pub order_by-Distinct : (xs : List A) → Distinct same xs → Distinct same (order_by before xs)
    unfolding order_by
    order_by-Distinct [] d = tt
    order_by-Distinct (x ∷ xs) d =
        insert_by-Distinct x (order_by before xs)
          (All-order_by (λ y. same y x ≡ false) before xs d.0) (order_by-Distinct xs d.1)
