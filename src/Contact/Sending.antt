-- ===== src/Contact/Sending.antt =====
-- contact_delivery.py: HermesSendClient, which has the Hermes CLI send one message.
use Prim.Native.String.{◌++◌ as append}
use hermes_life_bridge.Prelude.{
  ◌≡◌, ◌≢◌, ◌↔◌, refl, arith, Bool, not, Option, none, some, List, [], ◌∷◌, String, ◌==◌,
  if◌then◌else◌,
}
use hermes_life_bridge.Routing.{strip}

-- What comes of a sending: the provider's id, HermesSendFailedSafe, HermesSendOutcomeUnknown, or any
-- other exception, each of which has a text.
pub data SendOutcome : Type 0 where
  accepted : String → SendOutcome
  failed_safe outcome_unknown other_exception : String → SendOutcome

-- What `subprocess.run` does: the child ends with a code (shown as Python shows it) and its output,
-- the time is up, an OSError is raised, which the source takes for a child that was not started, or
-- another exception is raised; the latter two have the name of their class.
pub data ChildOutcome : Type 0 where
  ended : Bool → String → String → ChildOutcome
  timed_out : ChildOutcome
  os_error raised : String → ChildOutcome

-- A JSON value as the client looks at it: its truth, and what `str` makes of it.
pub record JsonValue : Type 0 where
  pub truthy : Bool
  pub shown : String

unfoldable pub json_field : String → List (String × JsonValue) → Option JsonValue
json_field key [] = none
json_field key ((k, v) ∷ fields) =
    let rest = json_field key fields in if k == key then some v else rest

abbrev or_else : Option JsonValue → String → String
or_else none other = other
or_else (some v) other = if v.truthy then v.shown else other

-- `str(data.get("message_id") or data.get("id") or "")`; what is not a JSON object gives "".
abbrev pub provider_id_of : Option (List (String × JsonValue)) → String
provider_id_of none = ""
provider_id_of (some fields) =
    or_else (json_field "message_id" fields) (or_else (json_field "id" fields) "")

-- The child that runs `hermes send --to target --json message`, and `json.loads` of an object.
module _ (run : String → String → ChildOutcome)
    (loads : String → Option (List (String × JsonValue))) where
  -- The part of `send` after the child ended or did not.
  abbrev pub read_child : ChildOutcome → SendOutcome
  read_child timed_out = outcome_unknown "hermes_send_timeout_after_invoke"
  read_child (os_error name) = failed_safe (append "hermes_send_spawn_failed:" name)
  read_child (raised name) = outcome_unknown (append "hermes_send_unknown_exception:" name)
  read_child (ended is_zero code output) =
      if not is_zero
      then outcome_unknown (append "hermes_send_exit_" code)
      else if strip output == ""
      then accepted ""
      else accepted (provider_id_of (loads (strip output)))

  -- `HermesSendClient.send`
  unfoldable pub send : String → String → SendOutcome
  send target message = read_child (run target message)

  read_child_cases :
      (c : ChildOutcome)
      → ((e : String) → read_child c ≢ other_exception e)
        × (((e : String) × (read_child c ≡ failed_safe e)) ↔ ((n : String) × (c ≡ os_error n)))
  read_child_cases timed_out = (λ e h. cc, (λ h. absurd (ground arith), λ h. absurd (ground arith)))
  read_child_cases (raised name) =
      (λ e h. cc, (λ h. absurd (ground arith), λ h. absurd (ground arith)))
  read_child_cases (os_error name) = (λ e h. cc, (λ h. (name, refl), λ h. (_, refl)))
  read_child_cases (ended is_zero code output) =
      (λ e h. ground arith, (λ h. absurd (ground arith), λ h. absurd (ground arith)))

  -- HermesSendClient raises no exception of another kind, and reports a safe failure exactly if
  -- running the child raised an OSError.
  pub send_cases :
      (target message : String)
      → ((e : String) → send target message ≢ other_exception e)
        × (((e : String) × (send target message ≡ failed_safe e))
            ↔ ((n : String) × (run target message ≡ os_error n)))
  unfolding send
  send_cases target message = read_child_cases (run target message)
