-- ===== src/Store/Retention.antt =====
-- What purge_terminal keeps.
use hermes_life_bridge.Prelude.{
  ℕ, zero, suc, ◌≤◌, ◌<◌, ◌≡◌, ◌⊎◌, inl, inr, refl, sym, subst, ap, ◌∙◌, Bool, true, false, not,
  ◌||◌, Option, some, List, [], ◌∷◌, String, arith, ltb, if◌then◌else◌, select, length, ◌==◌,
  eq_iff, Bool-cases, All, All-map, Distinct, All-select, All-order_by, All-both, select-All,
  Distinct-select, not_equal,
}
use hermes_life_bridge.Errors.{Result, ok, err}
use hermes_life_bridge.Calendar.{Calendar, parse_utc}
use hermes_life_bridge.Contract.{BridgeOperation, IsWellFormed}
use hermes_life_bridge.Store.Table.{Database, find_id}
use hermes_life_bridge.Store.Lookup.{same_id}
use hermes_life_bridge.Store.Soundness.{IsSound, same_key}
use hermes_life_bridge.Store.Outbox.{one_of}
use hermes_life_bridge.Store.Purge.{
  is_terminal_row, updated_before, terminal_rows, delete_ids, keep_old, select_old, purge_terminal,
}

-- Every row is what its own id finds.
unfoldable pub IsFound : List BridgeOperation → BridgeOperation → Type 0
IsFound rows r = find_id r.operation_id rows ≡ some r

IsFound-first : (x : BridgeOperation) (xs : List BridgeOperation) → IsFound (x ∷ xs) x
unfolding IsFound find_id
IsFound-first x xs = rw ((eq_iff x.operation_id x.operation_id).1 refl)

IsFound-later :
    (x y : BridgeOperation) (xs : List BridgeOperation)
    → (same_id y x ≡ false) × IsFound xs y
    → IsFound (x ∷ xs) y
unfolding IsFound find_id
IsFound-later x y xs (other, found) = rw (not_equal x.operation_id y.operation_id other) found

pub All-IsFound : (rows : List BridgeOperation) → Distinct same_id rows → All (IsFound rows) rows
All-IsFound [] d = tt
All-IsFound (x ∷ xs) d = (
  IsFound-first x xs,
  All-map {P = λ y. (same_id y x ≡ false) × IsFound xs y} xs (λ y h. IsFound-later x y xs h)
      (All-both (λ y. same_id y x ≡ false) (IsFound xs) xs d.0 (All-IsFound xs d.1)),
)

-- What a deletion by ids leaves to be found.
module _ (ids : List String) (j : String) (kept : one_of j ids ≡ false) where
  abbrev spared : BridgeOperation → Bool
  spared r = not (one_of r.operation_id ids)

  find_id-delete_if :
      (b c : Bool) (x : BridgeOperation) (rows rest : List BridgeOperation)
      → not (one_of x.operation_id ids) ≡ b
      → x.operation_id == j ≡ c
      → find_id j rest ≡ find_id j rows
      → find_id j (if b then x ∷ rest else rest) ≡ (if c then some x else find_id j rows)
  unfolding find_id
  find_id-delete_if true c x rows rest e f h =
      rw f (ap (λ (o : Option BridgeOperation). if c then some x else o) h)
  find_id-delete_if false true x rows rest e f h =
      absurd (
        clash
          (subst (λ (i : String). not (one_of i ids) ≡ false) ((eq_iff x.operation_id j).0 f) e))
    where
      clash : not (one_of j ids) ≡ false → ⊥
      clash g = ground arith
  find_id-delete_if false false x rows rest e f h = h

  find_id-delete : (rows : List BridgeOperation) → find_id j (select spared rows) ≡ find_id j rows
  unfolding find_id select
  find_id-delete [] = refl
  find_id-delete (x ∷ xs) =
      find_id-delete_if (spared x) (x.operation_id == j) x xs (select spared xs) refl refl
        (find_id-delete xs)

one_of-All {κ} :
    (P : String → Type κ) (j : String) (ids : List String) → one_of j ids ≡ true → All P ids → P j
unfolding one_of
one_of-All P j [] h a = absurd (ground arith)
one_of-All P j (i ∷ is) h a = elim (Bool-cases (j == i)) [
  | inl here ↦ subst P (sym ((eq_iff j i).0 here)) a.0
  | inr there ↦ one_of-All P j is (ground arith) a.1
]

-- A row that the purge may take: it is over, and its last change is read and older than the cutoff.
pub record IsOld (calendar : Calendar) (cutoff : ℕ) (r : BridgeOperation) : Type 0 where
  pub over : is_terminal_row r ≡ true
  pub changed : ℕ
  pub read : parse_utc calendar r.updated_at ≡ ok changed
  pub older : changed < cutoff

-- The id belongs to a stored row that the purge may take.
pub record IsTaken (calendar : Calendar) (cutoff : ℕ) (rows : List BridgeOperation) (id : String)
    : Type 0 where
  pub row : BridgeOperation
  pub stored : find_id id rows ≡ some row
  pub old : IsOld calendar cutoff row

module _ (calendar : Calendar) (cutoff : ℕ) (all_rows : List BridgeOperation) where
  abbrev IsCandidate : BridgeOperation → Type 0
  IsCandidate r = (is_terminal_row r ≡ true) × IsFound all_rows r

  keep_old-IsTaken :
      (r : BridgeOperation) (t : Result ℕ) (more skipped : List String)
      → parse_utc calendar r.updated_at ≡ t
      → IsCandidate r
      → All (IsTaken calendar cutoff all_rows) more
      → All (IsTaken calendar cutoff all_rows) skipped
      → All (IsTaken calendar cutoff all_rows) (keep_old t cutoff r.operation_id more skipped)
  unfolding IsFound
  keep_old-IsTaken r (err e) more skipped read c h k = k
  keep_old-IsTaken r (ok t) more skipped read c h k = take_if (ltb t cutoff) refl
    where
      take_if :
          (b : Bool)
          → ltb t cutoff ≡ b
          → All (IsTaken calendar cutoff all_rows) (if b then r.operation_id ∷ more else skipped)
      take_if true e = (
        record {
          row = r;
          stored = c.1;
          old = record { over = c.0; changed = t; read = read; older = ground arith };
        },
        h,
      )
      take_if false e = k

  select_old-IsTaken :
      (room : ℕ) (rows : List BridgeOperation)
      → All IsCandidate rows
      → All (IsTaken calendar cutoff all_rows) (select_old calendar cutoff room rows)
  unfolding select_old
  select_old-IsTaken zero rows h = tt
  select_old-IsTaken (suc room) [] h = tt
  select_old-IsTaken (suc room) (r ∷ rows) h =
      keep_old-IsTaken r (parse_utc calendar r.updated_at) _ _ refl h.0
        (select_old-IsTaken room rows h.1) (select_old-IsTaken (suc room) rows h.1)

  length-keep_old :
      (t : Result ℕ) (id : String) (room : ℕ) (more skipped : List String)
      → length more ≤ room
      → length skipped ≤ suc room
      → length (keep_old t cutoff id more skipped) ≤ suc room
  length-keep_old t id room more skipped h k = ground arith

  length-select_old :
      (room : ℕ) (rows : List BridgeOperation)
      → length (select_old calendar cutoff room rows) ≤ room
  unfolding select_old
  length-select_old zero rows = omega arith
  length-select_old (suc room) [] = omega arith
  length-select_old (suc room) (r ∷ rows) =
      length-keep_old (parse_utc calendar r.updated_at) r.operation_id room _ _
        (length-select_old room rows) (length-select_old (suc room) rows)

  terminal_rows-IsCandidate :
      (db : Database)
      → db.operations ≡ all_rows
      → Distinct same_id all_rows
      → All IsCandidate (terminal_rows db)
  unfolding terminal_rows
  terminal_rows-IsCandidate db e d =
      All-order_by IsCandidate updated_before (select is_terminal_row db.operations) (
        All-both (λ r. is_terminal_row r ≡ true) (IsFound all_rows)
          (select is_terminal_row db.operations) (select-All is_terminal_row db.operations)
          (All-select (IsFound all_rows) is_terminal_row db.operations
            (subst (All (IsFound all_rows)) (sym e) (All-IsFound all_rows d))))

-- A deletion keeps the store sound.
delete_ids-IsSound : (ids : List String) (db : Database) → IsSound db → IsSound (delete_ids ids db)
unfolding delete_ids
delete_ids-IsSound ids db s =
    let test : BridgeOperation → Bool = λ r. not (one_of r.operation_id ids) in
    record {
      well_formed = All-select IsWellFormed test db.operations s.well_formed;
      ids = Distinct-select test same_id db.operations s.ids;
      keys = Distinct-select test same_key db.operations s.keys;
    }

-- What a purge that returned `count` left behind.
pub record Purged (calendar : Calendar) (cutoff limit count : ℕ) (db db' : Database) : Type 0 where
  pub bounded : count ≤ limit
  pub kept_or_old :
      (j : String) (op : BridgeOperation)
      → find_id j db.operations ≡ some op
      → (find_id j db'.operations ≡ some op) ⊎ IsOld calendar cutoff op
  pub still_sound : IsSound db'

module _ (calendar : Calendar) (db : Database) (sound : IsSound db) (cutoff limit : ℕ) where
  abbrev old_ids : List String
  old_ids = select_old calendar cutoff limit (terminal_rows db)

  taken : All (IsTaken calendar cutoff db.operations) old_ids
  taken =
      select_old-IsTaken calendar cutoff db.operations limit (terminal_rows db)
        (terminal_rows-IsCandidate calendar cutoff db.operations db refl sound.ids)

  same : {a b : BridgeOperation} {o : Option BridgeOperation} → o ≡ some a → o ≡ some b → a ≡ b
  same p q = cc

  kept_row :
      (j : String) (op : BridgeOperation)
      → find_id j db.operations ≡ some op
      → (find_id j (delete_ids old_ids db).operations ≡ some op) ⊎ IsOld calendar cutoff op
  unfolding delete_ids
  kept_row j op found = elim (Bool-cases (one_of j old_ids)) [
    | inl gone ↦
        let t = one_of-All (IsTaken calendar cutoff db.operations) j old_ids gone taken in
        inr (subst (IsOld calendar cutoff) (same t.stored found) t.old)
    | inr kept ↦ inl (find_id-delete old_ids j kept db.operations ∙ found)
  ]

  purge_rows-Purged : Purged calendar cutoff limit (length old_ids) db (delete_ids old_ids db)
  purge_rows-Purged = record {
    bounded = length-select_old calendar cutoff db.operations limit (terminal_rows db);
    kept_or_old = kept_row;
    still_sound = delete_ids-IsSound old_ids db sound;
  }

-- On a sound store, a purge with a limit from 1 to 10000 and a readable cutoff returns at most
-- limit, keeps every row that is not a completed or exhausted Percept or Cognition last changed
-- before the cutoff, and keeps the store sound.
pub purge_terminal-Purged :
    (calendar : Calendar) (db : Database) (before : String) (cutoff limit : ℕ)
    → IsSound db
    → 1 ≤ limit
    → limit ≤ 10000
    → parse_utc calendar before ≡ ok cutoff
    → (count : ℕ) × (db' : Database) × (purge_terminal calendar before limit db ≡ (ok count, db'))
      × Purged calendar cutoff limit count db db'
unfolding purge_terminal
purge_terminal-Purged calendar db before cutoff limit sound low high read = (
  length (old_ids calendar db sound cutoff limit),
  delete_ids (old_ids calendar db sound cutoff limit) db,
  rw (in_range limit low high, read) refl,
  purge_rows-Purged calendar db sound cutoff limit,
)
  where
    in_range : (n : ℕ) → 1 ≤ n → n ≤ 10000 → ltb n 1 || ltb 10000 n ≡ false
    in_range n l h = ground arith
