-- ===== src/Tests/Fixtures.antt =====
-- Operations, stores and a clock for the tests.
use hermes_life_bridge.Prelude.{refl, none, some, [], ◌∷◌, is_blank, is_sha256_hex, is_safe_token}
use hermes_life_bridge.Contract.{
  prepared, delivery_unknown, cognition, contact, unknown, BridgeOperation, post_init, check_texts,
  check_tokens, check_schedule, check_outcome, post_init_iff, IsWellFormed, same_state, same_kind,
}
use hermes_life_bridge.Store.{Database, Representation, IsSound}

abbrev pub fresh : BridgeOperation
fresh = record {
  operation_id = "op_1";
  kind = cognition;
  idempotency_key = "key_1";
  request_hash = "00112233445566778899aabbccddeeff00112233445566778899aabbccddeeff";
  state = prepared;
  attempt = 0;
  created_at = "2026-01-01T00:00:00Z";
  updated_at = "2026-01-01T00:00:00Z";
  next_attempt_at = none;
  delivery_outcome = none;
  last_error_code = none;
  schema_version = "v0.4";
}

abbrev pub lost_contact : BridgeOperation
lost_contact = record fresh {
  operation_id = "op_2";
  kind = contact;
  idempotency_key = "key_2";
  state = delivery_unknown;
  attempt = 1;
  delivery_outcome = some unknown;
  last_error_code = some "telegram_timeout";
}

pub fresh-IsWellFormed : IsWellFormed fresh
unfolding post_init check_texts check_tokens check_schedule check_outcome is_blank is_sha256_hex
    is_safe_token same_state same_kind
fresh-IsWellFormed = ((post_init_iff fresh fresh).0 refl).0

abbrev pub second : BridgeOperation
second = record fresh { operation_id = "op_3"; idempotency_key = "key_3" }

pub second-IsWellFormed : IsWellFormed second
unfolding post_init check_texts check_tokens check_schedule check_outcome is_blank is_sha256_hex
    is_safe_token same_state same_kind
second-IsWellFormed = ((post_init_iff second second).0 refl).0

pub lost_contact-IsWellFormed : IsWellFormed lost_contact
unfolding post_init check_texts check_tokens check_schedule check_outcome is_blank is_sha256_hex
    is_safe_token same_state same_kind
lost_contact-IsWellFormed = ((post_init_iff lost_contact lost_contact).0 refl).0

abbrev pub two_rows : Database
two_rows = record { operations = fresh ∷ lost_contact ∷ []; outbox = [] }

pub two_rows-IsSound : IsSound two_rows
unfolding same_kind
two_rows-IsSound = record {
  well_formed = (fresh-IsWellFormed, (lost_contact-IsWellFormed, tt));
  ids = ((refl, tt), (tt, tt));
  keys = ((refl, tt), (tt, tt));
}

abbrev pub plain : Representation
plain = record { sanitize = λ s. s; dumps = λ e. "" }
