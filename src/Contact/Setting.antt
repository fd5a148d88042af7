-- ===== src/Contact/Setting.antt =====
-- What ContactService acts on: its stores, the clock, the learned route, the sender and the trace.
use hermes_life_bridge.Prelude.{ℕ, ◌+◌, Bool, Option, none, some, List, ◌∷◌, String, length}
use hermes_life_bridge.Errors.{Result, ok, err}
use hermes_life_bridge.Exec.{Exec}
use hermes_life_bridge.Calendar.{Calendar, format_timestamp}
use hermes_life_bridge.Routing.{StoredRoute}
use hermes_life_bridge.Store.{Database}
use hermes_life_bridge.Contact.Tables.{ContactTables}
use hermes_life_bridge.Contact.Reconciler.{Stores, on_operations, on_contacts}
use hermes_life_bridge.Contact.Sending.{SendOutcome}

-- ContactIntentEnvelope; `utility` and `urgency` by their numerals.
pub record ContactIntentEnvelope : Type 0 where
  pub intent_id : String
  pub idempotency_key : String
  pub life_did : String
  pub basis_state_sequence : ℕ
  pub basis_state_hash : String
  pub source_event_id : String
  pub cognitive_receipt_id : String
  pub target : String
  pub message_text : String
  pub message_hash : String
  pub utility : String
  pub urgency : String
  pub evidence_refs : List String
  pub created_at : String
  pub expires_at : String
  pub schema_version : String

-- ContactDecisionEnvelope
pub record ContactDecisionEnvelope : Type 0 where
  pub decision_id : String
  pub intent_id : String
  pub outcome : String
  pub contact_utility : String
  pub interruption_cost : String
  pub reason_codes : List String
  pub decided_at : String
  pub schema_version : String

-- The settings that the service reads; an empty `contact_target` is one that is not set.
pub record ContactConfig : Type 0 where
  pub life_did : String
  pub contact_target : String
  pub contact_delivery_enabled : Bool
  pub route_max_age : ℕ

-- A message that was handed to the sender, with the operation that it was sent for.
pub record Sending : Type 0 where
  pub operation_id : String
  pub target : String
  pub message : String

-- The state: both stores, how often the clock was read, the sendings and the stages of the trace,
-- the last one first, the file of the learned route, and whether `recover_startup` has run.
pub record ContactWorld : Type 0 where
  pub stores : Stores
  pub ticks : ℕ
  pub sent : List Sending
  pub traced : List String
  pub route : Option StoredRoute
  pub startup_recovered : Bool

-- What is outside: the n-th reading of the clock, the instant of a time without a zone, what comes
-- of the n-th sending of a text to a target, `str.lower`, SHA-256 in hexadecimal, UUID 5 in the
-- bridge's namespace, the JSON of an intent, a decision and the hash of a target, and the functions
-- `sanitize_operational_string` and `canonical_platform` of representation.py on texts.
pub record ContactHost : Type 0 where
  pub clock : ℕ → ℕ
  pub local_instant : ℕ → ℕ
  pub sender : ℕ → String → String → SendOutcome
  pub lower : String → String
  pub sha256 : String → String
  pub uuid5 : String → String
  pub request_json : ContactIntentEnvelope → ContactDecisionEnvelope → String → String
  pub platform_of : String → String

abbrev pub on_stores : {A : Type 0} → Exec Stores A → Exec ContactWorld A
on_stores m w = ((m w.stores).0, record w { stores = (m w.stores).1 })

abbrev pub in_operations : {A : Type 0} → Exec Database A → Exec ContactWorld A
in_operations m = on_stores (on_operations m)

abbrev pub in_tables : {A : Type 0} → Exec ContactTables A → Exec ContactWorld A
in_tables m = on_stores (on_contacts m)

-- `self.trace.emit(stage=...)`
abbrev pub emit : String → Exec ContactWorld (Unit {0})
emit stage w = (ok tt, record w { traced = stage ∷ w.traced })

abbrev pub caught_any : {A : Type 0} → Result A → ContactWorld → Result (Option A) × ContactWorld
caught_any (ok a) w = (ok (some a), w)
caught_any (err e) w = (ok none, w)

-- `try: ... except Exception: ...`, with `none` for the exception.
abbrev pub attempt_any : {A : Type 0} → Exec ContactWorld A → Exec ContactWorld (Option A)
attempt_any m w = caught_any (m w).0 (m w).1

module _ (calendar : Calendar) (host : ContactHost) where
  -- `datetime.now(timezone.utc)`
  abbrev pub current_instant : Exec ContactWorld ℕ
  current_instant w = (ok (host.clock w.ticks), record w { ticks = w.ticks + 1 })

  -- `_now`
  abbrev pub current_time : Exec ContactWorld String
  current_time w =
      (ok (format_timestamp calendar (host.clock w.ticks)), record w { ticks = w.ticks + 1 })

  -- `self.sender.send` of the message of an operation.
  abbrev pub hand_over : String → String → String → Exec ContactWorld SendOutcome
  hand_over id target message w = (
    ok (host.sender (length w.sent) target message),
    record w { sent = record { operation_id = id; target = target; message = message } ∷ w.sent },
  )
