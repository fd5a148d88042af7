-- ===== src/Tests/Retentions.antt =====
-- The purge at a concrete store.
use hermes_life_bridge.Prelude.{
  ℕ, ◌≡◌, refl, [], ◌∷◌, arith, is_blank, is_sha256_hex, is_safe_token,
}
use hermes_life_bridge.Errors.{ok}
use hermes_life_bridge.Calendar.{replace_zulu, parse_utc}
use hermes_life_bridge.Contract.{
  completed, BridgeOperation, post_init, post_init_iff, check_texts, check_tokens, check_schedule,
  check_outcome, IsWellFormed, same_state, same_kind,
}
use hermes_life_bridge.Store.{Database, IsSound, purge_terminal, Purged, purge_terminal-Purged}
use hermes_life_bridge.Tests.Fixtures.{fresh, lost_contact, lost_contact-IsWellFormed}
use hermes_life_bridge.Tests.Clock.{marked}

abbrev over : BridgeOperation
over = record fresh { state = completed; attempt = 1; updated_at = "II" }

over-IsWellFormed : IsWellFormed over
unfolding post_init check_texts check_tokens check_schedule check_outcome is_blank is_sha256_hex
    is_safe_token same_state same_kind
over-IsWellFormed = ((post_init_iff over over).0 refl).0

abbrev aged : Database
aged = record { operations = over ∷ lost_contact ∷ []; outbox = [] }

aged-IsSound : IsSound aged
unfolding same_kind
aged-IsSound = record {
  well_formed = (over-IsWellFormed, (lost_contact-IsWellFormed, tt));
  ids = ((refl, tt), (tt, tt));
  keys = ((refl, tt), (tt, tt));
}

cutoff_read : parse_utc marked "IIIII" ≡ ok 4
unfolding parse_utc marked replace_zulu
cutoff_read = refl

purge_terminal-Purged_example :
    (count : ℕ) × (db' : Database) × (purge_terminal marked "IIIII" 10 aged ≡ (ok count, db'))
    × Purged marked 4 10 count aged db'
purge_terminal-Purged_example =
    purge_terminal-Purged marked aged "IIIII" 4 10 aged-IsSound (omega arith) (omega arith)
      cutoff_read
