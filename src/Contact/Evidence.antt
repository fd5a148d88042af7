-- ===== src/Contact/Evidence.antt =====
-- ContactEvidence: what is known of a sending whose outcome was lost.
use hermes_life_bridge.Prelude.{
  Bool, true, false, not, ◌&&◌, String, ◌==◌, ltb, length, codes, is_safe_token,
}
use hermes_life_bridge.Errors.{Result, ok, value_error, state_conflict, raise_if, ◌>>◌}
use hermes_life_bridge.Contract.{delivery_unknown, contact, BridgeOperation, same_state, same_kind}

-- ContactEvidenceOutcome: DELIVERED, NOT_DELIVERED and UNKNOWN.
pub data ContactEvidenceOutcome : Type 0 where
  was_delivered not_delivered still_unknown : ContactEvidenceOutcome

pub record ContactEvidence : Type 0 where
  pub outcome : ContactEvidenceOutcome
  pub source : String
  pub provider_message_id : String

unfoldable pub same_outcome : ContactEvidenceOutcome → ContactEvidenceOutcome → Bool
same_outcome was_delivered was_delivered = true
same_outcome not_delivered not_delivered = true
same_outcome still_unknown still_unknown = true
same_outcome _ _ = false

-- `__post_init__`
unfoldable pub evidence_init : ContactEvidence → Result ContactEvidence
unfolding same_outcome
evidence_init e = do
  raise_if (not (is_safe_token e.source)) (value_error "contact_evidence_source_must_be_safe_token")
  raise_if (ltb 512 (length (codes e.provider_message_id)))
      (value_error "provider_message_id_too_long")
  raise_if (same_outcome e.outcome was_delivered && e.provider_message_id == "")
      (value_error "delivered_evidence_requires_provider_message_id")
  raise_if (not (same_outcome e.outcome was_delivered) && not (e.provider_message_id == ""))
      (value_error "provider_message_id_only_valid_for_delivered_evidence")
  ok e

-- The checks of `collect_evidence`.
unfoldable pub check_lost : BridgeOperation → Result (Unit {0})
unfolding same_kind same_state
check_lost op = do
  raise_if (not (same_kind op.kind contact)) (value_error "contact_reconciliation_is_contact_only")
  raise_if (not (same_state op.state delivery_unknown))
      (state_conflict "contact_reconciliation_requires_delivery_unknown")
