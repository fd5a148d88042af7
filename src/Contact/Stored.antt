-- ===== src/Contact/Stored.antt =====
-- ContactStore: what reads back of what was saved.
use hermes_life_bridge.Prelude.{
  ◌≡◌, ◌≢◌, refl, sym, ap, inl, inr, Bool-cases, Bool, true, not, Option, none, some, List, [], ◌∷◌,
  String, arith, ◌==◌, eq_iff, first, select,
}
use hermes_life_bridge.Contact.Tables.{
  DeliveryReceipt, ReceiptRow, ContactTables, with_duplicate, get_receipt,
}
use hermes_life_bridge.Contact.Requests.{redact_receipt, save_receipt}

none-ne-some {ℓ} : {A : Type ℓ} {x : A} → ◌≡◌ {A = Option A} none (some x) → ⊥
none-ne-some h = cc

some_inj {ℓ} : {A : Type ℓ} {x y : A} → some x ≡ some y → x ≡ y
some_inj h = cc

-- Rows that a search does not look for may be deleted before it.
first-select {ℓ} :
    {A : Type ℓ} (test keep : A → Bool) (xs : List A)
    → ((x : A) → test x ≡ true → keep x ≡ true)
    → first test (select keep xs) ≡ first test xs
unfolding first select
first-select test keep [] h = refl
first-select test keep (x ∷ xs) h = ground (arith, h x, first-select test keep xs h)

module _ (sanitize platform_of sha256 : String → String) where
  other_key_kept :
      (key key' : String)
      → key' ≢ key
      → (r : ReceiptRow) → (r.idempotency_key == key') ≡ true
      → not (r.idempotency_key == key) ≡ true
  other_key_kept key key' other r h =
      ground (arith, eq_iff r.idempotency_key key', eq_iff r.idempotency_key key, other)

  -- A saved receipt reads back in its redacted form, marked as a duplicate, and the receipts of
  -- other keys read back as before.
  pub get_receipt-save_receipt :
      (r : DeliveryReceipt) (t : ContactTables)
      → (get_receipt r.idempotency_key (save_receipt sanitize platform_of sha256 r t).1
          ≡ some (record (redact_receipt sanitize platform_of sha256 r) { duplicate = true }))
        × ((key : String)
            → key ≢ r.idempotency_key
            → get_receipt key (save_receipt sanitize platform_of sha256 r t).1 ≡ get_receipt key t)
  unfolding get_receipt save_receipt first
  get_receipt-save_receipt r t = (
    rw ((eq_iff r.idempotency_key r.idempotency_key).1 refl) refl,
    λ key other. elim (Bool-cases (r.idempotency_key == key)) [
      | inl same ↦ absurd (other (sym ((eq_iff r.idempotency_key key).0 same)))
      | inr differs ↦ rw differs (
          ap with_duplicate (
            first-select (λ (x : ReceiptRow). x.idempotency_key == key) _ t.receipts
              (other_key_kept r.idempotency_key key other)))
    ],
  )
