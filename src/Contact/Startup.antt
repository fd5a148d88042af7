-- ===== src/Contact/Startup.antt =====
-- ContactService: `recover_startup`, which settles what a restart interrupted.
use hermes_life_bridge.Prelude.{
  ℕ, ◌+◌, true, Option, none, some, List, [], ◌∷◌, String, if◌then◌else◌, length,
}
use hermes_life_bridge.Errors.{ok}
use hermes_life_bridge.Exec.{Exec, pure, ◌>>=◌, ◌>>◌}
use hermes_life_bridge.Calendar.{Calendar}
use hermes_life_bridge.Contract.{BridgeOperation}
use hermes_life_bridge.Store.{Representation, recover_interrupted_contact_operations}
use hermes_life_bridge.Contact.Evidence.{still_unknown, same_outcome}
use hermes_life_bridge.Contact.Reconciler.{EvidenceProbe, ContactReconciliationResult}
use hermes_life_bridge.Contact.Setting.{
  ContactConfig, ContactWorld, ContactHost, in_operations, emit, attempt_any, current_time,
}
use hermes_life_bridge.Contact.Service.{reconcile_now}

-- What `recover_startup` counts.
pub record RecoveryCounts : Type 0 where
  pub recovered_in_flight : ℕ
  pub resolved : ℕ
  pub unknown : ℕ
  pub retry : ℕ

abbrev pub no_counts : RecoveryCounts
no_counts = record { recovered_in_flight = 0; resolved = 0; unknown = 0; retry = 0 }

abbrev pub mark_recovered : Exec ContactWorld (Unit {0})
mark_recovered w = (ok tt, record w { startup_recovered = true })

module _ (calendar : Calendar) (digest_head : String → ℕ) (rep : Representation)
    (host : ContactHost) (config : ContactConfig) (probe : EvidenceProbe) where
  abbrev pub count_result : Option ContactReconciliationResult → RecoveryCounts → RecoveryCounts
  count_result none counts = record counts { unknown = counts.unknown + 1 }
  count_result (some result) counts =
      if same_outcome result.evidence.outcome still_unknown
      then record counts { unknown = counts.unknown + 1 }
      else record counts { resolved = counts.resolved + 1 }

  abbrev pub note_failure : Option ContactReconciliationResult → Exec ContactWorld (Unit {0})
  note_failure none = emit "CONTACT_RECONCILIATION_FAILED"
  note_failure (some result) = pure tt

  -- The loop of `recover_startup`.
  unfoldable pub reconcile_each :
      List BridgeOperation → RecoveryCounts → Exec ContactWorld RecoveryCounts
  reconcile_each [] counts = pure counts
  reconcile_each (op ∷ ops) counts = do
    time ← current_time calendar host
    result ←
        attempt_any (reconcile_now calendar digest_head rep host config probe op.operation_id time)
    note_failure result
    reconcile_each ops (count_result result counts)

  abbrev pub recover_once : Exec ContactWorld RecoveryCounts
  recover_once = do
    at ← current_time calendar host
    interrupted ← in_operations (recover_interrupted_contact_operations at)
    counts ←
        reconcile_each interrupted (record {
          recovered_in_flight = length interrupted;
          resolved = 0;
          unknown = 0;
          retry = 0;
        })
    mark_recovered
    pure counts

  -- `recover_startup`
  unfoldable pub recover_startup : Exec ContactWorld RecoveryCounts
  recover_startup w = if w.startup_recovered then (ok no_counts, w) else recover_once w
