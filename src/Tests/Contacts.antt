-- ===== src/Tests/Contacts.antt =====
-- ContactService at a concrete store.
use hermes_life_bridge.Prelude.{
  is_blank, is_sha256_hex, is_safe_token, count_where, update_where, codes, every, has_prefix, ℕ,
  ◌≤◌, ◌≡◌, ◌≢◌, ◌↔◌, refl, true, false, none, some, List, [], ◌∷◌, String, is_space, first, select,
  order_by,
}
use hermes_life_bridge.Errors.{ok}
use hermes_life_bridge.Calendar.{replace_offset, format_timestamp}
use hermes_life_bridge.Exec.{transaction}
use hermes_life_bridge.Contract.{
  BridgeOperation, in_flight, not_attempted, IsWellFormed, post_init, post_init_iff, check_texts,
  check_tokens, check_schedule, check_outcome, check_contact_outcome, check_no_outcome,
  allowed_transition, attempt_fits, is_late_completion_state, is_operation_transition_allowed,
  same_identity, same_kind, same_state,
}
use hermes_life_bridge.Store.{
  IsSound, row_to_operation, persist_transition, is_version, mark_failed_safe,
  transition_transaction, transition_body, load_for_update, build_failed_safe, get, find_id,
  list_rows, recover_contacts, recover_interrupted_contact_operations, completing,
}
use hermes_life_bridge.Routing.{RouteStatus}
use hermes_life_bridge.Contact.{
  ContactTables, EvidenceProbe, not_delivered, reconcile, collect_evidence, local_evidence,
  save_reconciliation, check_reconciliation, get_reconciliation, evidence_init, check_lost,
  same_outcome, ContactIntentEnvelope, ContactDecisionEnvelope, ContactConfig, ContactWorld,
  ContactHost, ContactEvent, requested, recovered, restarted, moved, after_events, times_sent,
  sent_at_most_once, SendOutcome, os_error, send, send_cases, ExecutionTarget, DeliveryReceipt,
  get_receipt, save_receipt, redact_receipt, get_receipt-save_receipt, RequestRow, ReceiptRow,
  latest_delivered_work_event_for_target, IsNewest, latest_delivered_work_event_for_target-IsNewest,
  is_event_token, recover_startup, recover_startup-Recovered, Recovered, RecoveryCounts,
  reconcile_each, IsReady, prepare_existing, prepare_existing-IsReady,
}
use hermes_life_bridge.Tests.Fixtures.{lost_contact-IsWellFormed, fresh, lost_contact, plain}
use hermes_life_bridge.Tests.Clock.{marked}

abbrev same : String → String
same s = s

abbrev head : String → ℕ
head s = 7

abbrev intent : ContactIntentEnvelope
intent = record {
  intent_id = "i_1";
  idempotency_key = "key_9";
  life_did = "did:life:1";
  basis_state_sequence = 4;
  basis_state_hash = "00";
  source_event_id = "e_1";
  cognitive_receipt_id = "c_1";
  target = "telegram:42";
  message_text = "hello";
  message_hash = "hello";
  utility = "0.5";
  urgency = "0.5";
  evidence_refs = "work-event://w1" ∷ [];
  created_at = "II";
  expires_at = "IIIIIIIIIIIIII";
  schema_version = "v0.3";
}

abbrev decision : ContactDecisionEnvelope
decision = record {
  decision_id = "d_1";
  intent_id = "i_1";
  outcome = "contact";
  contact_utility = "0.5";
  interruption_cost = "0.1";
  reason_codes = [];
  decided_at = "II";
  schema_version = "v0.3";
}

abbrev config : ContactConfig
config = record {
  life_did = "did:life:1";
  contact_target = "telegram:42";
  contact_delivery_enabled = true;
  route_max_age = 1000;
}

abbrev silent : ContactHost
silent = record {
  clock = λ n. n;
  local_instant = λ n. n;
  sender = λ n target message. SendOutcome.outcome_unknown "timeout";
  lower = same;
  sha256 = same;
  uuid5 = same;
  request_json = λ i d s. "00112233445566778899aabbccddeeff00112233445566778899aabbccddeeff";
  platform_of = λ s. "telegram";
}

abbrev empty : ContactWorld
empty = record {
  stores = record {
    operations = record { operations = lost_contact ∷ []; outbox = [] };
    contacts = record { requests = []; receipts = []; reconciliations = [] };
  };
  ticks = 0;
  sent = [];
  traced = [];
  route = none;
  startup_recovered = false;
}

abbrev events : List ContactEvent
events =
    requested intent decision
    ∷ requested intent decision
    ∷ restarted
    ∷ recovered
    ∷ moved completing "op_2" "III"
    ∷ requested intent decision
    ∷ []

sent_at_most_once_example :
    times_sent "op_2" (after_events marked head plain silent config none events empty).sent ≤ 1
sent_at_most_once_example =
    sent_at_most_once marked head plain silent config none events empty (tt, tt) refl "op_2"

abbrev receipt : DeliveryReceipt
receipt = record {
  receipt_id = "r_1";
  intent_id = "i_1";
  idempotency_key = "key_9";
  life_did = "did:life:1";
  target = "telegram:42";
  status = "delivered";
  message_hash = "hello";
  provider_message_id = "m_9";
  delivered_at = "III";
  duplicate = false;
  error = "";
  schema_version = "v0.3";
}

abbrev found : ExecutionTarget
found = record { target = "telegram:42"; status = RouteStatus.unknown; source = "configured" }

get_receipt-save_receipt_example :
    (get_receipt "key_9" (save_receipt same same same receipt empty.stores.contacts).1
      ≡ some (record (redact_receipt same same same receipt) { duplicate = true }))
    × ((key : String)
        → key ≢ "key_9"
        → get_receipt key (save_receipt same same same receipt empty.stores.contacts).1
          ≡ get_receipt key empty.stores.contacts)
get_receipt-save_receipt_example =
    get_receipt-save_receipt same same same receipt empty.stores.contacts

abbrev request_at : String → String → String → RequestRow
request_at key event created_at = record {
  idempotency_key = key;
  request_hash = "00";
  metadata = record {
    intent_id = "i_1";
    message_hash = "hello";
    work_event_id = some event;
    target_platform = some "telegram";
    target_hash = some "telegram:42";
  };
  created_at = created_at;
}

abbrev receipt_of_key : String → String → ReceiptRow
receipt_of_key key status = record {
  idempotency_key = key;
  receipt = record receipt { status = status };
  target_hash = some "telegram:42";
}

-- The newest request was a dry run, and the row before it is older than the one after.
abbrev three_requests : ContactTables
three_requests = record {
  requests =
      request_at "key_1" "w1" "II"
      ∷ request_at "key_2" "w2" "IIII"
      ∷ request_at "key_3" "w3" "III"
      ∷ [];
  receipts =
      receipt_of_key "key_1" "delivered"
      ∷ receipt_of_key "key_2" "dry_run"
      ∷ receipt_of_key "key_3" "delivered"
      ∷ [];
  reconciliations = [];
}

latest_delivered_work_event_for_target-IsNewest_example :
    IsNewest same same same "telegram:42" "w3" three_requests
unfolding latest_delivered_work_event_for_target is_event_token first
latest_delivered_work_event_for_target-IsNewest_example =
    latest_delivered_work_event_for_target-IsNewest same same same "telegram:42" three_requests refl

send_cases_example :
    ((e : String)
      → send (λ t m. os_error "FileNotFoundError") (λ s. none) "telegram:42" "hello"
        ≢ SendOutcome.other_exception e)
    × (((e : String) × (send (λ t m. os_error "FileNotFoundError") (λ s. none) "telegram:42" "hello"
            ≡ SendOutcome.failed_safe e))
        ↔ ((n : String) × (os_error "FileNotFoundError" ≡ os_error n)))
send_cases_example =
    send_cases (λ t m. os_error "FileNotFoundError") (λ s. none) "telegram:42" "hello"

prepare_existing-IsReady_example : IsReady fresh fresh empty empty
unfolding prepare_existing
prepare_existing-IsReady_example =
    prepare_existing-IsReady marked head plain silent config none fresh intent "III" "telegram:42"
      empty {op' = fresh} refl

abbrev running_contact : BridgeOperation
running_contact = record lost_contact {
  operation_id = "op_7";
  idempotency_key = "key_7";
  state = in_flight;
  delivery_outcome = some not_attempted;
  last_error_code = none;
}

running_contact-IsWellFormed : IsWellFormed running_contact
unfolding post_init check_texts check_tokens check_schedule check_outcome is_blank is_sha256_hex
    is_safe_token same_state same_kind
running_contact-IsWellFormed = ((post_init_iff running_contact running_contact).0 refl).0

abbrev stopped : ContactWorld
stopped = record empty {
  stores = record empty.stores {
    operations = record { operations = running_contact ∷ lost_contact ∷ []; outbox = [] };
  };
}

stopped-IsSound : IsSound stopped.stores.operations
unfolding same_kind
stopped-IsSound = record {
  well_formed = (running_contact-IsWellFormed, (lost_contact-IsWellFormed, tt));
  ids = ((refl, tt), (tt, tt));
  keys = ((refl, tt), (tt, tt));
}

-- A probe that knows that nothing was delivered.
abbrev denying : EvidenceProbe
denying =
    some (λ op. ok (record { outcome = not_delivered; source = "probe"; provider_message_id = "" }))

abbrev one_resolved : RecoveryCounts
one_resolved = record { recovered_in_flight = 1; resolved = 1; unknown = 0; retry = 0 }

recover_startup-Recovered_example :
    (c : RecoveryCounts) × (w : ContactWorld) × (recover_startup marked head plain silent config
        denying stopped
      ≡ (ok c, w))
    × Recovered marked head plain silent config denying stopped.stores.operations
        w.stores.operations c
unfolding is_blank codes every is_space format_timestamp replace_offset marked
recover_startup-Recovered_example =
    recover_startup-Recovered marked head plain silent config denying stopped stopped-IsSound refl
      refl

-- The interrupted contact was resolved.
started_counts :
    (recover_startup marked head plain silent config denying stopped).0 ≡ ok one_resolved
unfolding recover_startup recover_interrupted_contact_operations recover_contacts list_rows
    reconcile_each marked row_to_operation persist_transition is_version mark_failed_safe
    transition_transaction transition_body load_for_update build_failed_safe get find_id post_init
    check_texts check_tokens check_schedule check_outcome check_contact_outcome check_no_outcome
    allowed_transition attempt_fits is_late_completion_state is_operation_transition_allowed
    same_identity reconcile collect_evidence local_evidence save_reconciliation check_reconciliation
    get_reconciliation get_receipt evidence_init check_lost same_outcome is_blank is_sha256_hex
    is_safe_token count_where update_where select order_by first codes every has_prefix is_space
    format_timestamp replace_offset same_kind same_state transaction
started_counts = refl
