-- ===== src/Store/Lookup.antt =====
-- Looking up a row after an UPDATE that is keyed by a row's id, state and attempt.
use hermes_life_bridge.Prelude.{
  ◌≡◌, refl, sym, subst, Bool-cases, inl, inr, Bool, true, false, Option, none, some, List, [], ◌∷◌,
  String, arith, ◌==◌, eq_iff, if◌then◌else◌, All, Distinct, update_where, count_where,
  update_where_none, count_where_none, All-map,
}
use hermes_life_bridge.Contract.{BridgeOperation, same_state_iff}
use hermes_life_bridge.Store.Table.{find_id}
use hermes_life_bridge.Store.Transition.{is_version, set_columns}

abbrev pub same_id : BridgeOperation → BridgeOperation → Bool
same_id a b = a.operation_id == b.operation_id

none-ne-some : {row : BridgeOperation} → ◌≡◌ {A = Option BridgeOperation} none (some row) → ⊥
none-ne-some h = cc

find_id-cons_here :
    (id : String) (x : BridgeOperation) (xs : List BridgeOperation) {row : BridgeOperation}
    → (x.operation_id == id) ≡ true
    → find_id id (x ∷ xs) ≡ some row
    → x ≡ row
unfolding find_id
find_id-cons_here id x xs here h = ground arith

find_id-cons_there :
    (id : String) (x : BridgeOperation) (xs : List BridgeOperation) {row : BridgeOperation}
    → (x.operation_id == id) ≡ false
    → find_id id (x ∷ xs) ≡ some row
    → find_id id xs ≡ some row
unfolding find_id
find_id-cons_there id x xs there h = rw there at h

pub operation_id-find_id :
    (id : String) (rows : List BridgeOperation) (row : BridgeOperation)
    → find_id id rows ≡ some row
    → row.operation_id ≡ id
unfolding find_id
operation_id-find_id id [] row h = cc
operation_id-find_id id (x ∷ xs) row h =
    ground (arith, eq_iff x.operation_id id, operation_id-find_id id xs row)

-- A row that is found satisfies what all rows do.
pub find_id-All {κ} :
    (P : BridgeOperation → Type κ) (id : String) (rows : List BridgeOperation)
    {row : BridgeOperation}
    → find_id id rows ≡ some row
    → All P rows
    → P row
unfolding find_id
find_id-All P id [] h a = absurd (none-ne-some h)
find_id-All P id (x ∷ xs) {row} h a = elim (Bool-cases (x.operation_id == id)) [
  | inl here ↦ subst P (find_id-cons_here id x xs here h) a.0
  | inr there ↦ find_id-All P id xs (find_id-cons_there id x xs there h) a.1
]

module _ (cur : BridgeOperation) where
  is_version_self : is_version cur cur ≡ true
  unfolding is_version
  is_version_self =
      ground (
        arith,
        eq_iff cur.operation_id cur.operation_id,
        (same_state_iff cur.state cur.state).1 refl,
      )

  is_version_ne :
      (row : BridgeOperation)
      → (row.operation_id == cur.operation_id) ≡ false
      → is_version cur row ≡ false
  unfolding is_version
  is_version_ne row h = rw h

  is_version_others :
      (rows : List BridgeOperation)
      → All (λ y. same_id y cur ≡ false) rows
      → All (λ y. is_version cur y ≡ false) rows
  is_version_others rows = All-map {P = λ y. same_id y cur ≡ false} rows is_version_ne

  module _ (x : BridgeOperation) (xs : List BridgeOperation)
      (others : All (λ y. same_id y x ≡ false) xs) (e : x ≡ cur) where
    head_hit : is_version cur x ≡ true
    head_hit = subst (λ r. is_version cur r ≡ true) (sym e) is_version_self

    tail_missed : All (λ y. is_version cur y ≡ false) xs
    tail_missed = is_version_others xs (subst (λ r. All (λ y. same_id y r ≡ false) xs) e others)

  head_missed :
      (id : String) (x : BridgeOperation) (xs : List BridgeOperation)
      → (x.operation_id == id) ≡ false
      → find_id id xs ≡ some cur
      → is_version cur x ≡ false
  head_missed id x xs there h = is_version_ne x (rw (operation_id-find_id id xs cur h) there)

  -- With distinct ids, the UPDATE keyed by a stored row hits that row alone.
  pub count_where-is_version :
      (id : String) (rows : List BridgeOperation)
      → Distinct same_id rows
      → find_id id rows ≡ some cur
      → count_where (is_version cur) rows ≡ 1
  unfolding find_id count_where
  count_where-is_version id [] d h = absurd (none-ne-some h)
  count_where-is_version id (x ∷ xs) d h = elim (Bool-cases (x.operation_id == id)) [
    | inl here ↦
        let e : x ≡ cur = find_id-cons_here id x xs here h in
        rw (head_hit x xs d.0 e)
          (omega (arith, count_where_none (is_version cur) xs (tail_missed x xs d.0 e)))
    | inr there ↦
        let h' : find_id id xs ≡ some cur = find_id-cons_there id x xs there h in
        rw (head_missed id x xs there h') (omega (arith, count_where-is_version id xs d.1 h'))
  ]

  pub find_id-update_where :
      (cand : BridgeOperation) (id j : String) (rows : List BridgeOperation)
      → Distinct same_id rows
      → find_id id rows ≡ some cur
      → find_id j (update_where (is_version cur) (set_columns cand) rows)
        ≡ (if id == j then some (set_columns cand cur) else find_id j rows)
  unfolding find_id update_where
  find_id-update_where cand id j [] d h = absurd (none-ne-some h)
  find_id-update_where cand id j (x ∷ xs) d h = elim (Bool-cases (x.operation_id == id)) [
    | inl here ↦
        let e : x ≡ cur = find_id-cons_here id x xs here h in
        let t = update_where_none (is_version cur) (set_columns cand) xs (tail_missed x xs d.0 e) in
        rw (head_hit x xs d.0 e, t)
          (ground (arith, e, eq_iff x.operation_id id, eq_iff x.operation_id j, eq_iff id j))
    | inr there ↦
        let h' : find_id id xs ≡ some cur = find_id-cons_there id x xs there h in
        rw (head_missed id x xs there h') (
          ground (
            arith,
            eq_iff x.operation_id id,
            eq_iff x.operation_id j,
            eq_iff id j,
            find_id-update_where cand id j xs d.1 h',
          ))
  ]

  -- What holds of every row and of the row that is written holds of every row afterwards.
  pub All-update_row {κ} :
      (P : BridgeOperation → Type κ) (cand : BridgeOperation) (id : String)
      (rows : List BridgeOperation)
      → Distinct same_id rows
      → find_id id rows ≡ some cur
      → P (set_columns cand cur)
      → All P rows
      → All P (update_where (is_version cur) (set_columns cand) rows)
  unfolding find_id update_where
  All-update_row P cand id [] d h p a = tt
  All-update_row P cand id (x ∷ xs) d h p a = elim (Bool-cases (x.operation_id == id)) [
    | inl here ↦
        let e : x ≡ cur = find_id-cons_here id x xs here h in
        let t = update_where_none (is_version cur) (set_columns cand) xs (tail_missed x xs d.0 e) in
        rw (head_hit x xs d.0 e, t) (subst (λ r. P (set_columns cand r)) (sym e) p, a.1)
    | inr there ↦
        let h' : find_id id xs ≡ some cur = find_id-cons_there id x xs there h in
        rw (head_missed id x xs there h') (a.0, All-update_row P cand id xs d.1 h' p a.1)
  ]
