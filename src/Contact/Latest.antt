-- ===== src/Contact/Latest.antt =====
-- ContactStore: which delivery `latest_delivered_work_event_for_target` finds.
use hermes_life_bridge.Prelude.{
  ℕ, zero, suc, ◌≡◌, refl, sym, subst, ◌∙◌, inl, inr, Bool-cases, Bool, true, false, Option, none,
  some, List, [], ◌∷◌, String, All, All-map, take, order_by, text_lt, text_lt_asymm, text_ge_trans,
  Ordered, order_by-Ordered, order_by-All, All-order_by,
}
use hermes_life_bridge.Contact.Tables.{RequestRow, ReceiptRow, ContactTables}
use hermes_life_bridge.Contact.Requests.{
  is_event_token, find_receipt, join_receipts, newer_request, newest_contacts, is_delivery_to,
  approved_event, latest_among, latest_delivered_work_event_for_target,
}

none-ne-some {ℓ} : {A : Type ℓ} {x : A} → ◌≡◌ {A = Option A} none (some x) → ⊥
none-ne-some h = cc

some_inj {ℓ} : {A : Type ℓ} {x y : A} → some x ≡ some y → x ≡ y
some_inj h = cc

clash : {b : Bool} → b ≡ true → b ≡ false → ⊥
clash p q = cc

irreflexive : (s : String) → text_lt s s ≡ false
irreflexive s = elim (Bool-cases (text_lt s s)) [
  | inl less ↦ text_lt_asymm s s less
  | inr other ↦ other
]

-- A row is one of the rows.
pub data IsIn {A : Type 0} (x : A) : List A → Type 0 where
  at_head : {xs : List A} → IsIn x (x ∷ xs)
  further : {y : A} {xs : List A} → IsIn x xs → IsIn x (y ∷ xs)

all-IsIn : {A : Type 0} (xs : List A) → All (λ x. IsIn x xs) xs
all-IsIn [] = tt
all-IsIn (x ∷ xs) = (at_head, All-map {P = λ y. IsIn y xs} xs (λ y m. further m) (all-IsIn xs))

module _ (sanitize platform_of sha256 : String → String) where
  abbrev delivers : String → RequestRow → ReceiptRow → Bool
  delivers hash q r = is_delivery_to sanitize platform_of sha256 hash (q, r)

  -- Another request that was delivered to the hash was not created later than `q`.
  abbrev NotNewer : String → List ReceiptRow → RequestRow → RequestRow → Type 0
  NotNewer hash receipts q other =
      (r : ReceiptRow)
      → find_receipt other.idempotency_key receipts ≡ some r
      → delivers hash other r ≡ true
      → text_lt q.created_at other.created_at ≡ false

  -- The request `q` with its receipt is a delivery to the hash that names the event, and no request
  -- of `rows` delivered to the hash is newer. What `P` says of the rows holds of it.
  record Newest (P : RequestRow → Type 0) (hash id : String) (receipts : List ReceiptRow)
      (rows : List RequestRow) : Type 0 where
    request : RequestRow
    receipt : ReceiptRow
    known : P request
    received : find_receipt request.idempotency_key receipts ≡ some receipt
    delivered : delivers hash request receipt ≡ true
    event : request.metadata.work_event_id ≡ some id
    valid : is_event_token id ≡ true
    newest : All (NotNewer hash receipts request) rows

  approved_event-eq-some :
      (e : Option String) {id : String}
      → approved_event sanitize platform_of sha256 e ≡ some id
      → (e ≡ some id) × (is_event_token id ≡ true)
  approved_event-eq-some none h = absurd cc
  approved_event-eq-some (some e) {id} h = elim (Bool-cases (is_event_token e)) [
    | inl valid ↦
        let e' : some e ≡ some id = rw valid at h in
        (e', subst (λ i. is_event_token i ≡ true) (some_inj e') valid)
    | inr invalid ↦ absurd (none-ne-some (rw invalid at h))
  ]

  module _ (P : RequestRow → Type 0) (hash id : String) (receipts : List ReceiptRow) where
    abbrev Found : List RequestRow → Type 0
    Found rows = Newest P hash id receipts rows

    -- One more row in front, which is no delivery to the hash.
    passed_by :
        (q : RequestRow) (rows : List RequestRow)
        → ((r : ReceiptRow)
            → find_receipt q.idempotency_key receipts ≡ some r
            → delivers hash q r ≡ false)
        → Found rows
        → Found (q ∷ rows)
    passed_by q rows missed found = record {
      request = found.request;
      receipt = found.receipt;
      known = found.known;
      received = found.received;
      delivered = found.delivered;
      event = found.event;
      valid = found.valid;
      newest = (λ r e d. absurd (clash d (missed r e)), found.newest);
    }

    searched :
        (n : ℕ) (rows : List RequestRow)
        → Ordered (newer_request sanitize platform_of sha256) rows
        → All P rows
        → latest_among sanitize platform_of sha256 hash
            (take n (join_receipts sanitize platform_of sha256 rows receipts))
          ≡ some id
        → Found rows
    unfolding latest_among join_receipts
    searched n [] o p h = absurd (nothing n h)
      where
        nothing : (n : ℕ) → latest_among sanitize platform_of sha256 hash (take n []) ≡ some id → ⊥
        nothing zero h = none-ne-some h
        nothing (suc n) h = none-ne-some h
    searched n (q ∷ rows) o p h =
        by_receipt (find_receipt q.idempotency_key receipts) refl n h
          (λ m k. searched m rows o.1 p.1 k)
      where
        joined : List (RequestRow × ReceiptRow)
        joined = join_receipts sanitize platform_of sha256 rows receipts

        by_receipt :
            (found : Option ReceiptRow)
            → find_receipt q.idempotency_key receipts ≡ found
            → (n : ℕ)
            → latest_among sanitize platform_of sha256 hash
                (take n (elim found [ none ↦ joined | some r ↦ (q, r) ∷ joined ]))
              ≡ some id
            → ((m : ℕ)
                → latest_among sanitize platform_of sha256 hash (take m joined) ≡ some id
                → Found rows)
            → Found (q ∷ rows)
        by_receipt none e n h rest =
            passed_by q rows (λ r e'. absurd (none-ne-some (sym e ∙ e'))) (rest n h)
        by_receipt (some r) e zero h rest = absurd (none-ne-some h)
        by_receipt (some r) e (suc n) h rest = elim (Bool-cases (delivers hash q r)) [
          | inl yes_here ↦
              let (named, valid) =
                approved_event-eq-some q.metadata.work_event_id (rw yes_here at h) in
              record {
                request = q;
                receipt = r;
                known = p.0;
                received = e;
                delivered = yes_here;
                event = named;
                valid = valid;
                newest = (
                  λ _ _ _. irreflexive q.created_at,
                  All-map {P = λ y. text_lt q.created_at y.created_at ≡ false} rows
                      (λ y older _ _ _. older) o.0,
                );
              }
          | inr not_here ↦
              passed_by q rows
                (λ r' e'. subst (λ x. delivers hash q x ≡ false) (some_inj (sym e ∙ e')) not_here)
                (rest n (rw not_here at h))
        ]

  -- The request whose work event was found, with its receipt: a stored delivery to the target's hash,
  -- such that no stored delivery to that hash was created later.
  pub record IsNewest (hash id : String) (t : ContactTables) : Type 0 where
    pub request : RequestRow
    pub receipt : ReceiptRow
    pub stored : IsIn request t.requests
    pub received : find_receipt request.idempotency_key t.receipts ≡ some receipt
    pub delivered : is_delivery_to sanitize platform_of sha256 hash (request, receipt) ≡ true
    pub event : request.metadata.work_event_id ≡ some id
    pub valid : is_event_token id ≡ true
    pub newest :
        All
          (λ (other : RequestRow).
            (r : ReceiptRow)
            → find_receipt other.idempotency_key t.receipts ≡ some r
            → is_delivery_to sanitize platform_of sha256 hash (other, r) ≡ true
            → text_lt request.created_at other.created_at ≡ false)
          t.requests

  -- A work event that is found is named by a stored request that was delivered to the target's
  -- hash, and no stored request that was delivered to that hash was created later.
  pub latest_delivered_work_event_for_target-IsNewest :
      (target : String) (t : ContactTables) {id : String}
      → latest_delivered_work_event_for_target sanitize platform_of sha256 target t ≡ some id
      → IsNewest (sha256 target) id t
  unfolding latest_delivered_work_event_for_target newest_contacts
  latest_delivered_work_event_for_target-IsNewest target t {id} h =
      let newer = newer_request sanitize platform_of sha256 in
      let ordered =
        order_by-Ordered newer (λ x y e. text_lt_asymm y.created_at x.created_at e)
          (λ x y z e e'. text_ge_trans x.created_at y.created_at z.created_at e e') t.requests in
      let found =
        searched (λ q. IsIn q t.requests) (sha256 target) id t.receipts 100
          (order_by newer t.requests) ordered
          (All-order_by (λ q. IsIn q t.requests) newer t.requests (all-IsIn t.requests)) h in
      record {
        request = found.request;
        receipt = found.receipt;
        stored = found.known;
        received = found.received;
        delivered = found.delivered;
        event = found.event;
        valid = found.valid;
        newest =
            order_by-All newer (NotNewer (sha256 target) t.receipts found.request) t.requests
              found.newest;
      }
