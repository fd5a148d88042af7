-- ===== src/Tests/Works.antt =====
-- WorkStore at concrete facts.
use mathlib.Core.Option
use hermes_life_bridge.Prelude.{◌≡◌, refl, true, false, none, some, [], ◌∷◌, String, All, first}
use hermes_life_bridge.Errors.{ok}
use hermes_life_bridge.Work.{
  accept, accept_twice, WorkAcceptance, pending_idle, WorkFact, ActivityFact,
  disposition-after_calls, after_calls-FactLife, FactLife, get_ledger, LedgerRow, verified_complete,
  accepting, noting, evaluating, WorkHost, WorkTables, ShadowRow, invalidated, is_pending,
  get_outbox, after_calls, decided_for_good, note_activity, note_activity_settles, nothing_yet,
  from_mapping, to_mapping, from_mapping-to_mapping,
}
use hermes_life_bridge.Tests.Clock.{marked}

abbrev hash : String
hash = "sha256:00112233445566778899aabbccddeeff00112233445566778899aabbccddeeff"

abbrev finished : WorkFact
finished = record {
  schema_version = "work_fact.v1";
  fact_id = "fact_1";
  idempotency_key = "key_1";
  work_item_id = "item_1";
  session_id = "s1";
  executor_id = "codex";
  outcome_class = verified_complete;
  terminal = true;
  result_hash = hash;
  novelty_hash = hash;
  evidence_refs = "ev_1" ∷ "ev_2" ∷ [];
  attempt_count = 1;
  recovery_count = 0;
  observed_at = "2026-01-01T00:00:00Z";
}

abbrev active : ActivityFact
active = record {
  schema_version = "activity_fact.v1";
  session_id = "s1";
  observer_id = "obs";
  observed_at = "2026-01-01T00:00:05Z";
}

abbrev plain_host : WorkHost
plain_host = record { date_of = λ n. "2026-01-01"; format_utc = λ n. "later"; digest = λ f. "d" }

reads : from_mapping marked (to_mapping finished) ≡ ok finished
unfolding from_mapping marked to_mapping
reads = refl

from_mapping-to_mapping_example : from_mapping marked (to_mapping finished) ≡ ok finished
from_mapping-to_mapping_example = from_mapping-to_mapping marked (to_mapping finished) reads

abbrev stopped : ShadowRow
stopped = record {
  fact_id = "fact_1";
  idempotency_key = "key_1";
  session_id = "s1";
  accepted_epoch = 0;
  due_at = "later";
  due_at_us = 30;
  state = invalidated;
  reason = "newer_session_activity";
  updated_at = "2026-01-01T00:00:05Z";
}

abbrev tables : WorkTables
tables = record { ledger = []; epochs = []; outbox = stopped ∷ []; metrics = [] }

decided_for_good_example :
    get_outbox "fact_1" (
      after_calls marked plain_host
        (accepting finished 10 ∷ noting active ∷ evaluating "2026-01-02T00:00:00Z" 5 ∷ [])
        tables)
    ≡ some stopped
unfolding get_outbox first
decided_for_good_example =
    decided_for_good marked plain_host "fact_1" stopped refl
      (accepting finished 10 ∷ noting active ∷ evaluating "2026-01-02T00:00:00Z" 5 ∷ []) tables refl

abbrev before : WorkTables
before = after_calls marked plain_host (accepting finished 10 ∷ []) (nothing_yet marked plain_host)

abbrev after : WorkTables
after = (note_activity marked plain_host active before).1

note_activity_settles_example :
    All (λ (r : ShadowRow). r.session_id ≡ "s1" → is_pending r.state ≡ false) after.outbox
unfolding after_calls marked
note_activity_settles_example =
    note_activity_settles marked plain_host (accepting finished 10 ∷ []) active
      {a = record {
        session_id = "s1";
        epoch = 1;
        invalidated_count = 1;
        observed_at = "2026-01-01T00:00:05Z";
      }}
      {t' = after} refl

disposition-after_calls_example :
    Option.map (λ (l : LedgerRow). l.disposition) (get_ledger "fact_1" after) ≡ some invalidated
unfolding after_calls get_ledger get_outbox marked
disposition-after_calls_example =
    disposition-after_calls marked plain_host (accepting finished 10 ∷ noting active ∷ []) "fact_1"

after_calls-FactLife_example : FactLife none (some invalidated)
unfolding after_calls get_outbox marked
after_calls-FactLife_example =
    after_calls-FactLife marked plain_host (accepting finished 10 ∷ noting active ∷ []) "fact_1"
      (nothing_yet marked plain_host)

abbrev accepted : WorkAcceptance
accepted = record {
  status = "accepted";
  fact_id = "fact_1";
  idempotency_key = "key_1";
  fact_digest = "d";
  accepted_epoch = 0;
  outbox_state = pending_idle;
}

accept_twice_example :
    (t : WorkTables) × (accept marked plain_host finished 10 before
      ≡ (ok (record accepted { status = "duplicate" }), t))
    × (t.ledger ≡ before.ledger)
    × (t.epochs ≡ before.epochs)
    × (t.outbox ≡ before.outbox)
unfolding accept after_calls marked
accept_twice_example =
    accept_twice marked plain_host finished 10 (nothing_yet marked plain_host) {a = accepted}
      {t' = before} refl
