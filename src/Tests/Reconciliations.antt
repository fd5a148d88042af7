-- ===== src/Tests/Reconciliations.antt =====
-- Reconciliations of a contact whose delivery is unknown.
use hermes_life_bridge.Prelude.{
  ◌≡◌, refl, true, false, none, [], ◌∷◌, String, is_blank, is_safe_token, first,
}
use hermes_life_bridge.Errors.{ok}
use hermes_life_bridge.Contract.{same_state, same_kind}
use hermes_life_bridge.Store.{Database, find_id, Moved, completing, outcome_of}
use hermes_life_bridge.Contact.{
  Stores, DeliveryReceipt, ContactEvidence, was_delivered, still_unknown, get_receipt,
  get_reconciliation, evidence_init, check_lost, same_outcome, local_evidence, collect_evidence,
  reconcile, by_delivery, reconcile_decided, reconcile_undecided,
}
use hermes_life_bridge.Tests.Fixtures.{lost_contact, two_rows, two_rows-IsSound}

abbrev receipt : DeliveryReceipt
receipt = record {
  receipt_id = "r_1";
  intent_id = "i_1";
  idempotency_key = "key_2";
  life_did = "did:life:1";
  target = "telegram";
  status = "delivered";
  message_hash = "00";
  provider_message_id = "m_9";
  delivered_at = "2026-01-01T00:00:07Z";
  duplicate = false;
  error = "";
  schema_version = "v0.3";
}

abbrev with_receipt : Stores
with_receipt = record {
  operations = two_rows;
  contacts = record {
    requests = [];
    receipts = record { idempotency_key = "key_2"; receipt = receipt; target_hash = none } ∷ [];
    reconciliations = [];
  };
}

abbrev without_receipt : Stores
without_receipt = record {
  operations = two_rows;
  contacts = record { requests = []; receipts = []; reconciliations = [] };
}

abbrev proof_of_delivery : ContactEvidence
proof_of_delivery = record {
  outcome = was_delivered;
  source = "contact_store_receipt";
  provider_message_id = "m_9";
}

abbrev no_proof : ContactEvidence
no_proof = record {
  outcome = still_unknown;
  source = "no_authoritative_probe";
  provider_message_id = "";
}

abbrev unchanged : String → String
unchanged s = s

finds_receipt :
    collect_evidence unchanged none "now" lost_contact with_receipt
    ≡ (ok proof_of_delivery, with_receipt)
unfolding collect_evidence check_lost local_evidence get_receipt get_reconciliation evidence_init
    same_outcome same_state same_kind first is_safe_token
finds_receipt = refl

finds_nothing :
    collect_evidence unchanged none "now" lost_contact without_receipt
    ≡ (ok no_proof, without_receipt)
unfolding collect_evidence check_lost local_evidence get_receipt get_reconciliation evidence_init
    same_outcome same_state same_kind first is_safe_token
finds_nothing = refl

reconcile_decided_example :
    (db' : Database) × (reconcile unchanged none "now" "op_2" "2026-01-01T00:01:00Z" with_receipt
      ≡ (
        ok (record {
          operation = outcome_of completing "2026-01-01T00:01:00Z" lost_contact;
          evidence = proof_of_delivery;
          changed = true;
        }),
        record with_receipt { operations = db' },
      ))
    × Moved two_rows db' "op_2" lost_contact
        (outcome_of completing "2026-01-01T00:01:00Z" lost_contact)
unfolding find_id is_blank
reconcile_decided_example =
    reconcile_decided unchanged none "now" "op_2" "2026-01-01T00:01:00Z" with_receipt with_receipt
      two_rows-IsSound lost_contact refl proof_of_delivery finds_receipt completing by_delivery refl
      refl

reconcile_undecided_example :
    (reconcile unchanged none "now" "op_2" "2026-01-01T00:01:00Z" without_receipt ≡ (
      ok (record { operation = lost_contact; evidence = no_proof; changed = false }),
      without_receipt,
    ))
    × (two_rows ≡ two_rows)
unfolding find_id
reconcile_undecided_example =
    reconcile_undecided unchanged none "now" "op_2" "2026-01-01T00:01:00Z" without_receipt
      without_receipt two_rows-IsSound lost_contact refl no_proof finds_nothing refl
