-- ===== src/Work/Mapping.antt =====
-- WorkFact and ActivityFact as mappings: what is read must have exactly the fields of the contract.
use hermes_life_bridge.Prelude.{
  ℕ, Bool, true, not, ◌&&◌, List, [], ◌∷◌, String, ◌==◌, if◌then◌else◌,
}
use hermes_life_bridge.Errors.{
  Result, ok, err, work_contract_error, key_error, raise_if, ◌>>=◌, ◌>>◌,
}
use hermes_life_bridge.Calendar.{Calendar}
use hermes_life_bridge.Store.{one_of}
use hermes_life_bridge.Work.Contract.{
  WorkOutcome, verified_complete, verified_blocker, material_failure, WorkFact, ActivityFact,
  safe_token, safe_hash, safe_evidence_refs, safe_counter, parse_fact_time,
}

-- A value of a mapping, as JSON has it; `counts` is a mapping of names to whole numbers that are
-- not negative, and `other` is anything else.
pub data FactValue : Type 0 where
  text : String → FactValue
  flag : Bool → FactValue
  texts : List String → FactValue
  counts : List (String × ℕ) → FactValue
  other : FactValue

abbrev pub FactMapping : Type 0
FactMapping = List (String × FactValue)

unfoldable pub keys_of {ℓ} : {A : Type ℓ} → List (String × A) → List String
keys_of [] = []
keys_of ((k, v) ∷ fields) = k ∷ keys_of fields

unfoldable pub all_among : List String → List String → Bool
unfolding one_of
all_among [] known = true
all_among (k ∷ ks) known = one_of k known && all_among ks known

-- `keys == expected`, as sets
abbrev pub same_keys : List String → List String → Bool
same_keys keys expected = all_among keys expected && all_among expected keys

-- `data[name]`
unfoldable pub value_of {ℓ} : {A : Type ℓ} → String → List (String × A) → Result A
value_of name [] = err (key_error name)
value_of name ((k, v) ∷ fields) =
    let rest = value_of name fields in if k == name then ok v else rest

-- WORK_FACT_FIELDS
abbrev pub work_fact_fields : List String
work_fact_fields =
    "schema_version" ∷ "fact_id" ∷ "idempotency_key" ∷ "work_item_id" ∷ "session_id" ∷ "executor_id"
    ∷ "outcome_class" ∷ "terminal" ∷ "result_hash" ∷ "novelty_hash" ∷ "evidence_refs" ∷ "counters"
    ∷ "observed_at" ∷ []

-- ACTIVITY_FACT_FIELDS
abbrev pub activity_fact_fields : List String
activity_fact_fields = "schema_version" ∷ "session_id" ∷ "observer_id" ∷ "observed_at" ∷ []

abbrev pub refused {ℓ} : {A : Type ℓ} → String → Result A
refused message = err (work_contract_error message)

unfoldable pub outcome_value : WorkOutcome → String
outcome_value verified_complete = "verified_complete"
outcome_value verified_blocker = "verified_blocker"
outcome_value material_failure = "material_failure"

-- `self.schema_version != expected`
unfoldable pub read_schema : String → String → FactValue → Result String
read_schema expected message (text s) = if s == expected then ok s else refused message
read_schema expected message _ = refused message

unfoldable pub read_token : String → String → FactValue → Result String
unfolding safe_token
read_token field message (text s) = safe_token field s
read_token field message _ = refused message

-- `WorkOutcome(value)`
unfoldable pub read_outcome : FactValue → Result WorkOutcome
read_outcome (text s) =
    if s == "verified_complete"
    then ok verified_complete
    else if s == "verified_blocker"
    then ok verified_blocker
    else if s == "material_failure"
    then ok material_failure
    else refused "outcome_class_not_allowed"
read_outcome _ = refused "outcome_class_not_allowed"

unfoldable pub read_terminal : FactValue → Result Bool
read_terminal (flag true) = ok true
read_terminal _ = refused "work_fact_must_be_terminal"

unfoldable pub read_hash : String → String → FactValue → Result String
unfolding safe_hash
read_hash field message (text s) = safe_hash field s
read_hash field message _ = refused message

unfoldable pub read_refs : FactValue → Result (List String)
unfolding safe_evidence_refs
read_refs (texts refs) = safe_evidence_refs refs
read_refs _ = refused "evidence_refs_must_be_sequence"

-- `_safe_counters`
unfoldable pub read_counters : FactValue → Result (ℕ × ℕ)
unfolding keys_of all_among value_of safe_counter
read_counters (counts cs) = do
  raise_if (not (same_keys (keys_of cs) ("attempt_count" ∷ "recovery_count" ∷ [])))
      (work_contract_error "counters_fields_must_be_exact")
  a ← value_of "attempt_count" cs
  a' ← safe_counter "attempt_count" a
  r ← value_of "recovery_count" cs
  r' ← safe_counter "recovery_count" r
  ok (a', r')
read_counters _ = refused "counters_must_be_mapping"

module _ (calendar : Calendar) where
  unfoldable pub read_time : FactValue → Result String
  unfolding parse_fact_time
  read_time (text s) = do instant ← parse_fact_time calendar "observed_at" s; ok s
  read_time _ = refused "observed_at_must_be_rfc3339_utc"

  abbrev pub token_field : String → String → FactMapping → Result String
  token_field field message m = do v ← value_of field m; read_token field message v

  -- `WorkFact.from_mapping`, with `__post_init__`
  unfoldable pub from_mapping : FactMapping → Result WorkFact
  unfolding keys_of all_among value_of read_schema read_token read_outcome read_terminal read_hash
      read_refs read_counters read_time
  from_mapping m = do
    raise_if (not (same_keys (keys_of m) work_fact_fields))
        (work_contract_error "work_fact_fields_must_be_exact")
    schema ← value_of "schema_version" m
    schema' ← read_schema "work_fact.v1" "unsupported_work_fact_schema" schema
    fact ← token_field "fact_id" "fact_id_must_be_bounded_opaque_token" m
    key ← token_field "idempotency_key" "idempotency_key_must_be_bounded_opaque_token" m
    item ← token_field "work_item_id" "work_item_id_must_be_bounded_opaque_token" m
    session ← token_field "session_id" "session_id_must_be_bounded_opaque_token" m
    executor ← token_field "executor_id" "executor_id_must_be_bounded_opaque_token" m
    outcome ← value_of "outcome_class" m
    outcome' ← read_outcome outcome
    terminal ← value_of "terminal" m
    terminal' ← read_terminal terminal
    result ← value_of "result_hash" m
    result' ← read_hash "result_hash" "result_hash_must_be_prefixed_sha256" result
    novelty ← value_of "novelty_hash" m
    novelty' ← read_hash "novelty_hash" "novelty_hash_must_be_prefixed_sha256" novelty
    refs ← value_of "evidence_refs" m
    refs' ← read_refs refs
    counters ← value_of "counters" m
    counters' ← read_counters counters
    observed ← value_of "observed_at" m
    observed' ← read_time observed
    ok (record {
      schema_version = schema';
      fact_id = fact;
      idempotency_key = key;
      work_item_id = item;
      session_id = session;
      executor_id = executor;
      outcome_class = outcome';
      terminal = terminal';
      result_hash = result';
      novelty_hash = novelty';
      evidence_refs = refs';
      attempt_count = counters'.0;
      recovery_count = counters'.1;
      observed_at = observed';
    })

  -- `ActivityFact.from_mapping`, with `__post_init__`
  unfoldable pub activity_from_mapping : FactMapping → Result ActivityFact
  unfolding keys_of all_among value_of read_schema read_token read_time
  activity_from_mapping m = do
    raise_if (not (same_keys (keys_of m) activity_fact_fields))
        (work_contract_error "activity_fact_fields_must_be_exact")
    schema ← value_of "schema_version" m
    schema' ← read_schema "activity_fact.v1" "unsupported_activity_fact_schema" schema
    session ← token_field "session_id" "session_id_must_be_bounded_opaque_token" m
    observer ← token_field "observer_id" "observer_id_must_be_bounded_opaque_token" m
    observed ← value_of "observed_at" m
    observed' ← read_time observed
    ok (record {
      schema_version = schema';
      session_id = session;
      observer_id = observer;
      observed_at = observed';
    })

-- `WorkFact.to_mapping`
unfoldable pub to_mapping : WorkFact → FactMapping
unfolding outcome_value
to_mapping f =
    ("schema_version", text f.schema_version)
    ∷ ("fact_id", text f.fact_id)
    ∷ ("idempotency_key", text f.idempotency_key)
    ∷ ("work_item_id", text f.work_item_id)
    ∷ ("session_id", text f.session_id)
    ∷ ("executor_id", text f.executor_id)
    ∷ ("outcome_class", text (outcome_value f.outcome_class))
    ∷ ("terminal", flag f.terminal)
    ∷ ("result_hash", text f.result_hash)
    ∷ ("novelty_hash", text f.novelty_hash)
    ∷ ("evidence_refs", texts f.evidence_refs)
    ∷ (
      "counters",
      counts (("attempt_count", f.attempt_count) ∷ ("recovery_count", f.recovery_count) ∷ []),
    )
    ∷ ("observed_at", text f.observed_at)
    ∷ []

-- `ActivityFact.to_mapping`
unfoldable pub activity_to_mapping : ActivityFact → FactMapping
activity_to_mapping a =
    ("schema_version", text a.schema_version)
    ∷ ("session_id", text a.session_id)
    ∷ ("observer_id", text a.observer_id)
    ∷ ("observed_at", text a.observed_at)
    ∷ []
