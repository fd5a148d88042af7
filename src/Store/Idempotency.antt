-- ===== src/Store/Idempotency.antt =====
-- Reservation: what `reserve` answers in each case, and that asking again changes nothing.
use hermes_life_bridge.Prelude.{
  ◌≡◌, refl, ◌∙◌, inl, inr, Bool-cases, subst, Bool, true, false, not, Option, none, some, List, [],
  ◌∷◌, String, arith, ◌==◌, eq_iff, eqb, if◌then◌else◌, length, codes, is_sha256_hex, All, first,
}
use hermes_life_bridge.Errors.{ok, err, operation_conflict}
use hermes_life_bridge.Exec.{transaction}
use hermes_life_bridge.Contract.{
  OperationState, retry_wait, RetryClass, BridgeOperation, same_state, same_kind_iff, IsWellFormed,
  ScheduleFits,
}
use hermes_life_bridge.Store.Table.{
  Database, by_id, by_key, find_id, find_key, is_some, meets_checks, insert_operation,
}
use hermes_life_bridge.Store.Outbox.{Representation}
use hermes_life_bridge.Store.Reserve.{validate_initial, operation_values, reserve}
use hermes_life_bridge.Store.Soundness.{IsSound, row_to_operation_sound}

-- A search that finds nothing has refused every row.
pub All-first-none {ℓ} :
    {A : Type ℓ} (test : A → Bool) (xs : List A)
    → first test xs ≡ none
    → All (λ x. test x ≡ false) xs
unfolding first
All-first-none test [] h = tt
All-first-none test (x ∷ xs) h = (ground arith, All-first-none test xs (ground arith))

none-ne-some {ℓ} : {A : Type ℓ} {x : A} → ◌≡◌ {A = Option A} none (some x) → ⊥
none-ne-some h = cc

some_inj {ℓ} : {A : Type ℓ} {x y : A} → some x ≡ some y → x ≡ y
some_inj h = cc

pub first-All {ℓ κ} :
    {A : Type ℓ} (P : A → Type κ) (test : A → Bool) (xs : List A) {x : A}
    → first test xs ≡ some x
    → All P xs
    → P x
unfolding first
first-All P test [] h a = absurd (none-ne-some h)
first-All P test (y ∷ ys) {x} h a = elim (Bool-cases (test y)) [
  | inl here ↦ let e : some y ≡ some x = rw here at h in subst P (some_inj e) a.0
  | inr there ↦ first-All P test ys (rw there at h) a.1
]

schedule_checked :
    (s : OperationState) (t : Option String)
    → ScheduleFits s t
    → (if same_state s retry_wait then is_some t else not (is_some t)) ≡ true
unfolding same_state
schedule_checked retry_wait t h = ground arith
schedule_checked _ t h = ground arith

hash_length : (s : String) → is_sha256_hex s ≡ true → eqb (length (codes s)) 64 ≡ true
unfolding is_sha256_hex
hash_length s h = ground arith

-- The checks of the table hold of every well-formed row.
meets_checks_sound : (row : BridgeOperation) → IsWellFormed row → meets_checks row ≡ true
unfolding meets_checks
meets_checks_sound row w = rw (
  hash_length row.request_hash w.tokens.hash_hex,
  (eq_iff row.schema_version "v0.4").1 w.tokens.version,
  schedule_checked row.state row.next_attempt_at w.schedule,
)

insert_operation_new :
    (row : BridgeOperation) (rows : List BridgeOperation)
    → IsWellFormed row
    → find_id row.operation_id rows ≡ none
    → find_key row.kind row.idempotency_key rows ≡ none
    → insert_operation row rows ≡ ok (row ∷ rows)
unfolding insert_operation
insert_operation_new row rows w p q = rw (p, q, meets_checks_sound row w)

insert-IsSound :
    (row : BridgeOperation) (db : Database)
    → IsWellFormed row
    → find_id row.operation_id db.operations ≡ none
    → find_key row.kind row.idempotency_key db.operations ≡ none
    → IsSound db
    → IsSound (record db { operations = row ∷ db.operations })
unfolding find_id find_key
insert-IsSound row db w p q s = record {
  well_formed = (w, s.well_formed);
  ids = (All-first-none (by_id row.operation_id) db.operations p, s.ids);
  keys = (All-first-none (by_key row.kind row.idempotency_key) db.operations q, s.keys);
}

pub find_key-All {κ} :
    (P : BridgeOperation → Type κ) (kind : RetryClass) (key : String) (rows : List BridgeOperation)
    {row : BridgeOperation}
    → find_key kind key rows ≡ some row
    → All P rows
    → P row
unfolding find_key
find_key-All P kind key rows h a = first-All P (by_key kind key) rows h a

module _ (rep : Representation) (op : BridgeOperation) (db : Database) (sound : IsSound db)
    (initial : validate_initial rep op ≡ ok tt) where
  -- A well-formed initial operation with canonical texts whose id and key are free in a sound store
  -- is stored as it is and returned as new, and the store stays sound.
  pub reserve_new :
      IsWellFormed op
      → operation_values rep op ≡ op
      → find_id op.operation_id db.operations ≡ none
      → find_key op.kind op.idempotency_key db.operations ≡ none
      → (reserve rep op db ≡ (ok (op, true), record db { operations = op ∷ db.operations }))
        × IsSound (record db { operations = op ∷ db.operations })
  unfolding reserve transaction
  reserve_new w canonical no_id no_key = (
    rw (initial, no_key, no_id, canonical, insert_operation_new op db.operations w no_id no_key),
    insert-IsSound op db w no_id no_key sound,
  )

  -- On a sound store, for an acceptable initial operation whose kind and key are taken, reserve
  -- returns the stored operation if the request hash is the same and raises a conflict otherwise,
  -- and the store does not change.
  pub reserve_existing :
      (old : BridgeOperation)
      → find_key op.kind op.idempotency_key db.operations ≡ some old
      → reserve rep op db ≡ (
        if old.request_hash == op.request_hash
            then ok (old, false)
            else err (operation_conflict "idempotency_key_reused_with_different_request"),
        db,
      )
  unfolding reserve transaction
  reserve_existing old taken =
      let stored = row_to_operation_sound old (
        find_key-All IsWellFormed op.kind op.idempotency_key db.operations taken
          sound.well_formed) in
      elim (Bool-cases (old.request_hash == op.request_hash)) [
        | inl same ↦ rw (initial, taken, stored, same)
        | inr other ↦ rw (initial, taken, stored, other)
      ]

find_key_head :
    (op : BridgeOperation) (rows : List BridgeOperation)
    → find_key op.kind op.idempotency_key (op ∷ rows) ≡ some op
unfolding find_key
find_key_head op rows =
    rw (
      (same_kind_iff op.kind op.kind).1 refl,
      (eq_iff op.idempotency_key op.idempotency_key).1 refl,
    )

-- For a new, well-formed initial operation whose texts are canonical and whose id and key are free
-- in a sound store, reserving it a second time returns it as already stored and does not change the
-- store that the first call left.
pub reserve_twice :
    (rep : Representation) (op : BridgeOperation) (db : Database)
    → IsSound db
    → validate_initial rep op ≡ ok tt
    → IsWellFormed op
    → operation_values rep op ≡ op
    → find_id op.operation_id db.operations ≡ none
    → find_key op.kind op.idempotency_key db.operations ≡ none
    → reserve rep op (reserve rep op db).1 ≡ (ok (op, false), (reserve rep op db).1)
reserve_twice rep op db sound initial w canonical no_id no_key =
    let (made, made_sound) = reserve_new rep op db sound initial w canonical no_id no_key in
    let again =
      reserve_existing rep op (record db { operations = op ∷ db.operations }) made_sound initial op
        (find_key_head op db.operations) in
    rw made (again ∙ rw ((eq_iff op.request_hash op.request_hash).1 refl))
