-- ===== src/Contact/Checks.antt =====
-- ContactService: what `process` checks and computes before it acts.
use Prim.Native.Char.{code}
use Prim.Native.String.{◌++◌ as append}
use hermes_life_bridge.Prelude.{
  ℕ, Bool, true, false, not, ◌||◌, Option, none, some, List, [], ◌∷◌, String, ◌==◌, leb, eqb,
  if◌then◌else◌,
}
use hermes_life_bridge.Errors.{Result, ok, err, value_error, contact_error, raise_if, ◌>>=◌, ◌>>◌}
use hermes_life_bridge.Calendar.{Stamp, Calendar, replace_zulu}
use hermes_life_bridge.Routing.{RouteStatus, StoredRoute, strip, route_status}
use hermes_life_bridge.Store.{one_of}
use hermes_life_bridge.Contact.Requests.{RawMetadata, is_event_token, target_platform}
use hermes_life_bridge.Contact.Setting.{
  ContactIntentEnvelope, ContactDecisionEnvelope, ContactConfig, ContactHost,
}

-- What follows a prefix of a text, if the text has it.
unfoldable pub after_prefix : String → String → Option String
after_prefix String.[] s = some s
after_prefix (String.◌∷◌ p ps) String.[] = none
after_prefix (String.◌∷◌ p ps) (String.◌∷◌ c s) =
    let rest = after_prefix ps s in if eqb (code p) (code c) then rest else none

abbrev pub event_token : Option String → Option String
event_token none = none
event_token (some s) = if is_event_token s then some s else none

-- The set of the work events that the references name, each once.
abbrev pub add_new : Option String → List String → List String
add_new none found = found
add_new (some s) found = if one_of s found then found else s ∷ found

work_events : List String → List String
unfolding after_prefix
work_events [] = []
work_events (ref ∷ refs) =
    add_new (event_token (after_prefix "work-event://" ref)) (work_events refs)

abbrev pub only_event : List String → String
only_event (id ∷ []) = id
only_event _ = ""

-- `_work_event_id`
unfoldable pub work_event_id : List String → String
unfolding work_events
work_event_id refs = only_event (work_events refs)

-- `_execution_target` returns the target, the status of the learned route, and the source.
pub record ExecutionTarget : Type 0 where
  pub target : String
  pub status : RouteStatus
  pub source : String

abbrev join_parts : List String → String
join_parts [] = ""
join_parts (a ∷ []) = a
join_parts (a ∷ b ∷ rest) = append a (append "|" (join_parts (b ∷ rest)))

-- `stable_id(kind, *parts)`
abbrev pub joined_id : ContactHost → List String → String
joined_id host parts = host.uuid5 (join_parts parts)

abbrev pub unavailable : String → Result ExecutionTarget
unavailable reason = err (contact_error "contact_route_unavailable" reason)

abbrev target_or_empty : Option StoredRoute → String
target_or_empty none = ""
target_or_empty (some r) = r.target

module _ (calendar : Calendar) (sanitize : String → String) (host : ContactHost)
    (config : ContactConfig) where
  open calendar use {from_iso}
  open host use {lower, sha256, platform_of, request_json, local_instant}

  -- `_request_hash`: the text of the message is left out of the intent.
  abbrev pub request_hash : ContactIntentEnvelope → ContactDecisionEnvelope → String → String
  request_hash intent decision target =
      sha256 (request_json (record intent { message_text = "" }) decision (sha256 target))

  -- `_parse`; a time without a zone is a local time.
  abbrev parsed : Option Stamp → Result ℕ
  parsed none = err (value_error "Invalid isoformat string")
  parsed (some s) = if s.aware then ok s.instant else ok (local_instant s.instant)

  abbrev has_none : List String → Bool
  has_none [] = true
  has_none _ = false

  -- `_validate` at the instant `now`
  unfoldable pub validate : ContactIntentEnvelope → ContactDecisionEnvelope → ℕ → Result (Unit {0})
  unfolding replace_zulu
  validate intent decision now = do
    raise_if (not (intent.life_did == config.life_did)) (value_error "life_did_mismatch")
    raise_if (not (decision.intent_id == intent.intent_id)) (value_error "intent_decision_mismatch")
    raise_if (not (decision.outcome == "contact")) (value_error "decision_not_contact")
    expires ← parsed (from_iso (replace_zulu intent.expires_at))
    raise_if (leb expires now) (value_error "intent_expired")
    raise_if (not (sha256 intent.message_text == intent.message_hash))
        (value_error "message_hash_mismatch")
    raise_if (has_none intent.evidence_refs) (value_error "missing_evidence")

  abbrev pub platform_label : String → String
  platform_label target = target_platform sanitize platform_of sha256 target

  -- The target before the checks, by the status of the learned route.
  abbrev pub choose_target :
      RouteStatus → Option StoredRoute → ContactIntentEnvelope → Result ExecutionTarget
  choose_target RouteStatus.fresh learned intent =
      ok (record {
        target = target_or_empty learned;
        status = RouteStatus.fresh;
        source = "learned";
      })
  choose_target RouteStatus.stale learned intent = unavailable "contact_route_stale"
  choose_target RouteStatus.invalid learned intent = unavailable "contact_route_invalid"
  choose_target RouteStatus.unknown learned intent = ok (record {
    target = if config.contact_target == "" then intent.target else config.contact_target;
    status = RouteStatus.unknown;
    source = if config.contact_target == "" then "intent" else "configured";
  })

  -- The configured target admits a target: exactly, or by its platform if it is no more than that.
  abbrev pub is_configured : String → Bool
  is_configured target =
      if config.contact_target == ""
      then true
      else if not (config.contact_target == platform_label config.contact_target)
      then target == config.contact_target
      else platform_label target == platform_label config.contact_target

  abbrev pub is_requested : String → String → Bool
  is_requested requested target =
      requested == ""
      || requested == "auto"
      || requested == target
      || requested == platform_label target

  abbrev pub check_target : ExecutionTarget → ContactIntentEnvelope → Result ExecutionTarget
  check_target chosen intent =
      if chosen.target == "" || chosen.target == "auto"
      then unavailable "contact_route_unknown"
      else (do
        raise_if (not (is_requested (strip intent.target) chosen.target))
            (value_error "target_not_allowlisted")
        raise_if (not (is_configured chosen.target)) (value_error "target_not_allowlisted")
        ok chosen)

  -- `_execution_target` at the instant `now`
  unfoldable pub execution_target :
      Option StoredRoute → ContactIntentEnvelope → ℕ → Result ExecutionTarget
  unfolding route_status
  execution_target learned intent now = do
    chosen ←
        choose_target (route_status calendar lower learned config.route_max_age now) learned intent
    check_target chosen intent

  -- The metadata of `process`'s reservation.
  abbrev pub raw_metadata : ContactIntentEnvelope → String → RawMetadata
  raw_metadata intent target =
      let id = work_event_id intent.evidence_refs in
      record {
        intent_id = intent.intent_id;
        target = target;
        message_hash = intent.message_hash;
        work_event_id = if id == "" then none else some id;
      }
