-- ===== src/Tests/Deliveries.antt =====
-- The executor at a concrete store.
use hermes_life_bridge.Prelude.{
  true, is_exact_route, ◌≡◌, refl, some, arith, [], ◌∷◌, String, is_blank, is_sha256_hex,
  is_safe_token,
}
use hermes_life_bridge.Contract.{
  completed, percept, BridgeOperation, post_init, post_init_iff, check_texts, check_tokens,
  check_schedule, check_outcome, IsWellFormed, same_state, same_kind,
}
use hermes_life_bridge.Exec.{transaction}
use hermes_life_bridge.Store.{
  find_outbox, validate_initial, contains_forbidden_representation, field_value, find_key,
  insert_operation, operation_values, reserve_percept, reserve_percept-HasPayload, HasPayload,
  NothingLost, check_percept, canonical_percept_event, Database, find_id, IsSound, PerceptEvent,
  text, number,
}
use hermes_life_bridge.Retry.{default_retry_policies, IsLimited, IsWithin, policy_for}
use hermes_life_bridge.Delivery.{World, Host, duplicate_receipt, attempt, pump, executor-IsLimited}
use hermes_life_bridge.Tests.Fixtures.{fresh, plain}
use hermes_life_bridge.Tests.Clock.{marked}

abbrev seen : BridgeOperation
seen = record fresh { kind = percept; state = completed; attempt = 1 }

seen-IsWellFormed : IsWellFormed seen
unfolding post_init check_texts check_tokens check_schedule check_outcome is_blank is_sha256_hex
    is_safe_token same_state same_kind
seen-IsWellFormed = ((post_init_iff seen seen).0 refl).0

abbrev quiet : Host
quiet = record {
  clock = λ n. "IIII";
  reply = λ n event. some duplicate_receipt;
  sha256 = λ s. s;
  uuid5 = λ s. s;
}

abbrev settled : World
settled = record { store = record { operations = seen ∷ []; outbox = [] }; ticks = 0; sent = [] }

settled-IsSound : IsSound settled.store
settled-IsSound = record { well_formed = (seen-IsWellFormed, tt); ids = (tt, tt); keys = (tt, tt) }

abbrev ready : BridgeOperation
ready = record fresh { kind = percept }

ready-IsWellFormed : IsWellFormed ready
unfolding post_init check_texts check_tokens check_schedule check_outcome is_blank is_sha256_hex
    is_safe_token same_state same_kind
ready-IsWellFormed = ((post_init_iff ready ready).0 refl).0

abbrev event : PerceptEvent
event =
    ("event_id", text "e1")
    ∷ ("life_did", text "did:life:1")
    ∷ ("source_body_id", text "body_1")
    ∷ ("modality", text "message")
    ∷ ("observed_at", text "2026-01-01T00:00:00Z")
    ∷ ("payload_ref", text "ref_1")
    ∷ ("salience_hint", number "0.5")
    ∷ ("idempotency_key", text "key_1")
    ∷ ("schema_version", text "v0.1")
    ∷ []

abbrev one_ready : Database
one_ready = record {
  operations = ready ∷ [];
  outbox =
      record { operation_id = "op_1"; event = event; created_at = "2026-01-01T00:00:00Z" } ∷ [];
}

one_ready-IsWithin :
    (id : String) (op : BridgeOperation)
    → find_id id one_ready.operations ≡ some op
    → IsWithin default_retry_policies op
unfolding find_id policy_for
one_ready-IsWithin id op h = record { bounded = ground arith; room = λ e. ground arith }

one_ready-IsLimited : IsLimited default_retry_policies one_ready
one_ready-IsLimited = record {
  sound = record { well_formed = (ready-IsWellFormed, tt); ids = (tt, tt); keys = (tt, tt) };
  within = one_ready-IsWithin;
}

abbrev ready_world : World
ready_world = record { store = one_ready; ticks = 0; sent = [] }

executor-IsLimited_example :
    IsLimited default_retry_policies
      (attempt marked (λ s. 7) plain quiet "op_1" ready_world).1.store
    × IsLimited default_retry_policies (pump marked (λ s. 7) plain quiet 100 ready_world).1.store
executor-IsLimited_example =
    executor-IsLimited marked (λ s. 7) plain quiet "op_1" 100 ready_world one_ready-IsLimited

abbrev nothing_stored : Database
nothing_stored = record { operations = []; outbox = [] }

abbrev reserved : Database
reserved = (reserve_percept plain ready event nothing_stored).1

reserve_percept-HasPayload_example : HasPayload ready reserved × NothingLost nothing_stored reserved
unfolding reserve_percept check_percept canonical_percept_event is_exact_route same_state same_kind
    transaction find_id find_outbox validate_initial contains_forbidden_representation field_value
    find_key insert_operation operation_values
reserve_percept-HasPayload_example =
    reserve_percept-HasPayload plain ready nothing_stored event {stored = ready} {created = true}
      {db' = reserved} refl
