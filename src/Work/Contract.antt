-- ===== src/Work/Contract.antt =====
-- work_contract.py: which texts, counters and times a fact may have. No part of a token may name
-- private content or a route.
use Prim.Native.String.{◌++◌ as append}
use hermes_life_bridge.Prelude.{
  ℕ, zero, suc, ◌+◌, Bool, true, false, not, ◌&&◌, ◌||◌, Option, none, some, List, [], ◌∷◌, ◌++◌,
  String, ltb, leb, eqb, if◌then◌else◌, length, codes, every, is_digit, is_letter, has_prefix,
}
use hermes_life_bridge.Errors.{Result, ok, err, work_contract_error, raise_if, ◌>>=◌, ◌>>◌}
use hermes_life_bridge.Calendar.{Stamp, Calendar, expand_zulu}
use hermes_life_bridge.Store.{one_of}

-- WorkOutcome
pub data WorkOutcome : Type 0 where
  verified_complete verified_blocker material_failure : WorkOutcome

pub record WorkFact : Type 0 where
  pub schema_version : String
  pub fact_id : String
  pub idempotency_key : String
  pub work_item_id : String
  pub session_id : String
  pub executor_id : String
  pub outcome_class : WorkOutcome
  pub terminal : Bool
  pub result_hash : String
  pub novelty_hash : String
  pub evidence_refs : List String
  pub attempt_count : ℕ
  pub recovery_count : ℕ
  pub observed_at : String

pub record ActivityFact : Type 0 where
  pub schema_version : String
  pub session_id : String
  pub observer_id : String
  pub observed_at : String

abbrev pub is_token_code : ℕ → Bool
is_token_code c = is_letter c || is_digit c || eqb c b'_' || eqb c b'.' || eqb c b'-'

unfoldable pub starts_with_alphanumeric : List ℕ → Bool
starts_with_alphanumeric [] = false
starts_with_alphanumeric (c ∷ cs) = is_letter c || is_digit c

-- `_TOKEN_RE.fullmatch`
unfoldable pub is_opaque_token : String → Bool
unfolding codes every starts_with_alphanumeric
is_opaque_token s =
    starts_with_alphanumeric (codes s)
    && leb (length (codes s)) 128
    && every is_token_code (codes s)

abbrev is_separator : ℕ → Bool
is_separator c = eqb c b'_' || eqb c b'.' || eqb c b'-'

-- `casefold` of a letter of a token, which is ASCII.
abbrev fold_letter : ℕ → ℕ
fold_letter c = if leb b'A' c && leb c b'Z' then c + 32 else c

abbrev keep_part : List ℕ → List (List ℕ) → List (List ℕ)
keep_part [] parts = parts
keep_part (c ∷ cs) parts = (c ∷ cs) ∷ parts

-- The part that a text starts with, and the parts after its first separator.
split_parts : List ℕ → List ℕ × List (List ℕ)
split_parts [] = ([], [])
split_parts (c ∷ cs) =
    let rest = split_parts cs in
    if is_separator c then ([], keep_part rest.0 rest.1) else (fold_letter c ∷ rest.0, rest.1)

-- `tuple(part for part in re.split(r"[_.-]+", value.casefold()) if part)`
unfoldable pub components : String → List (List ℕ)
unfolding codes split_parts
components s = let parts = split_parts (codes s) in keep_part parts.0 parts.1

unfoldable pub collapsed : List (List ℕ) → List ℕ
collapsed [] = []
collapsed (part ∷ parts) = part ++ collapsed parts

unfoldable pub same_codes : List ℕ → List ℕ → Bool
same_codes [] [] = true
same_codes (x ∷ xs) (y ∷ ys) = eqb x y && same_codes xs ys
same_codes _ _ = false

unfoldable pub is_among : List ℕ → List String → Bool
unfolding codes same_codes
is_among part [] = false
is_among part (w ∷ ws) = same_codes part (codes w) || is_among part ws

-- _RAW_COMPONENTS
abbrev pub raw_components : List String
raw_components =
    "prompt" ∷ "response" ∷ "transcript" ∷ "message" ∷ "content" ∷ "command" ∷ "filepath"
    ∷ "pathname" ∷ "url" ∷ "chat" ∷ "chatid" ∷ "target" ∷ "toolargs" ∷ "toolresult" ∷ "tooloutput"
    ∷ "credential" ∷ "credentials" ∷ "secret" ∷ "authorization" ∷ "cookie" ∷ []

-- _ROUTE_COMPONENTS
abbrev pub route_components : List String
route_components = "feishu" ∷ "telegram" ∷ "discord" ∷ "slack" ∷ "signal" ∷ "sms" ∷ "whatsapp" ∷ []

unfoldable pub any_raw : List (List ℕ) → Bool
unfolding is_among
any_raw [] = false
any_raw (part ∷ parts) = is_among part raw_components || any_raw parts

abbrev pub first_is_route : List (List ℕ) → Bool
first_is_route [] = false
first_is_route (part ∷ parts) = is_among part route_components

-- `_safe_token` of a text
unfoldable pub safe_token : String → String → Result String
unfolding is_opaque_token components collapsed any_raw is_among
safe_token field s = do
  raise_if (not (is_opaque_token s))
      (work_contract_error (append field "_must_be_bounded_opaque_token"))
  raise_if (any_raw (components s) || is_among (collapsed (components s)) raw_components)
      (work_contract_error (append field "_contains_raw_sensitive_value"))
  raise_if (first_is_route (components s))
      (work_contract_error (append field "_contains_route_syntax"))
  ok s

abbrev is_hex : ℕ → Bool
is_hex c = is_digit c || leb b'a' c && leb c b'f'

unfoldable pub rest_after : ℕ → List ℕ → List ℕ
rest_after n [] = []
rest_after zero (c ∷ cs) = c ∷ cs
rest_after (suc n) (c ∷ cs) = rest_after n cs

-- `_safe_hash` of a text
unfoldable pub safe_hash : String → String → Result String
unfolding codes every has_prefix rest_after
safe_hash field s = do
  raise_if
      (not (
        has_prefix (codes "sha256:") (codes s)
        && eqb (length (codes s)) 71
        && every is_hex (rest_after 7 (codes s))))
      (work_contract_error (append field "_must_be_prefixed_sha256"))
  ok s

unfoldable pub safe_tokens : String → List String → Result (List String)
unfolding safe_token
safe_tokens field [] = ok []
safe_tokens field (s ∷ ss) = do r ← safe_token field s; rs ← safe_tokens field ss; ok (r ∷ rs)

unfoldable pub has_repeat : List String → Bool
unfolding one_of
has_repeat [] = false
has_repeat (s ∷ ss) = one_of s ss || has_repeat ss

-- `_safe_evidence_refs` of a list
unfoldable pub safe_evidence_refs : List String → Result (List String)
unfolding safe_tokens has_repeat
safe_evidence_refs refs = do
  raise_if (ltb 32 (length refs)) (work_contract_error "evidence_refs_too_many")
  rs ← safe_tokens "evidence_ref" refs
  raise_if (has_repeat rs) (work_contract_error "evidence_refs_must_be_unique")
  ok rs

-- One counter of `_safe_counters`
unfoldable pub safe_counter : String → ℕ → Result ℕ
safe_counter name n = do
  raise_if (ltb 1000000 n) (work_contract_error (append name "_out_of_range"))
  ok n

-- A shape of `_UTC_RE`: `d` stands for a digit.
unfoldable pub fits_shape : List ℕ → List ℕ → Bool
fits_shape [] [] = true
fits_shape (p ∷ ps) (c ∷ cs) = (if eqb p b'd' then is_digit c else eqb p c) && fits_shape ps cs
fits_shape _ _ = false

unfoldable pub is_utc_shape : String → Bool
unfolding codes fits_shape
is_utc_shape s =
    fits_shape (codes "dddd-dd-ddTdd:dd:ddZ") (codes s)
    || fits_shape (codes "dddd-dd-ddTdd:dd:dd.dZ") (codes s)
    || fits_shape (codes "dddd-dd-ddTdd:dd:dd.ddZ") (codes s)
    || fits_shape (codes "dddd-dd-ddTdd:dd:dd.dddZ") (codes s)
    || fits_shape (codes "dddd-dd-ddTdd:dd:dd.ddddZ") (codes s)
    || fits_shape (codes "dddd-dd-ddTdd:dd:dd.dddddZ") (codes s)
    || fits_shape (codes "dddd-dd-ddTdd:dd:dd.ddddddZ") (codes s)

module _ (calendar : Calendar) where
  open calendar use {from_iso}

  abbrev instant_of : String → Option Stamp → Result ℕ
  instant_of field none = err (work_contract_error (append field "_must_be_rfc3339_utc"))
  instant_of field (some s) =
      if s.aware then ok s.instant else err (work_contract_error (append field "_must_be_utc"))

  -- `parse_utc`; the other digits that `\d` takes are refused by `fromisoformat`.
  unfoldable pub parse_fact_time : String → String → Result ℕ
  unfolding is_utc_shape expand_zulu
  parse_fact_time field value = do
    raise_if (not (is_utc_shape value)) (work_contract_error (append field "_must_be_rfc3339_utc"))
    instant_of field (from_iso (expand_zulu value))
