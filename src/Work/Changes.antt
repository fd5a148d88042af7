-- ===== src/Work/Changes.antt =====
-- WorkStore's methods as sequences of four kinds of changes.
use hermes_life_bridge.Prelude.{
  ℕ, ◌≡◌, refl, subst, Bool, true, false, none, ◌∷◌, String, eqb, if◌then◌else◌, first, select,
  count_where,
}
use hermes_life_bridge.Errors.{ok, ok_inj, ◌>>=◌, >>=-eq-ok}
use hermes_life_bridge.Calendar.{Calendar}
use hermes_life_bridge.Store.{one_of}
use hermes_life_bridge.Work.Contract.{WorkFact, parse_fact_time}
use hermes_life_bridge.Work.Tables.{
  invalidated, ShadowRow, WorkTables, of_fact, of_shadow, find_epoch, set_disposition, set_state,
  add_metric,
}
use hermes_life_bridge.Work.Ledger.{
  WorkHost, metric, ensure_epoch, require_epoch, ledger_row, shadow_row, bump_epoch, is_outdated,
  fact_ids, judge, is_pending_fact,
}

module _ (calendar : Calendar) (host : WorkHost) where
  -- What one step of a transaction does to the ledger, the epochs and the outbox: nothing, a fact is
  -- added, a session is active, or a pending fact is judged.
  pub data Change (t t' : WorkTables) : Type 0 where
    counted : t'.ledger ≡ t.ledger → t'.epochs ≡ t.epochs → t'.outbox ≡ t.outbox → Change t t'
    added :
        (fact : WorkFact) (digest : String) (epoch due : ℕ)
        → first (of_fact fact.fact_id) t.ledger ≡ none
        → first (of_shadow fact.fact_id) t.outbox ≡ none
        → require_epoch calendar host
            (find_epoch fact.session_id (ensure_epoch calendar host fact.session_id t.epochs))
          ≡ ok epoch
        → t'.ledger ≡ ledger_row calendar host fact digest epoch ∷ t.ledger
        → t'.epochs ≡ ensure_epoch calendar host fact.session_id t.epochs
        → t'.outbox ≡ shadow_row calendar host fact epoch due ∷ t.outbox
        → Change t t'
    stirred :
        (session at : String) (epoch : ℕ)
        → require_epoch calendar host
            (find_epoch session (bump_epoch calendar host session at t.epochs))
          ≡ ok epoch
        → t'.ledger
          ≡ set_disposition
              (λ r. one_of r.fact.fact_id (
                fact_ids calendar host (select (is_outdated calendar host session epoch) t.outbox)))
              invalidated
              t.ledger
        → t'.epochs ≡ bump_epoch calendar host session at t.epochs
        → t'.outbox
          ≡ set_state
              (is_outdated calendar host session epoch)
              invalidated
              "newer_session_activity"
              at
              t.outbox
        → Change t t'
    judged :
        (now : String) (row : ShadowRow)
        → count_where (is_pending_fact calendar host row.fact_id) t.outbox ≡ 1
        → t'.ledger
          ≡ set_disposition
              (of_fact row.fact_id)
              (judge calendar host (find_epoch row.session_id t.epochs) row.accepted_epoch).0
              t.ledger
        → t'.epochs ≡ t.epochs
        → t'.outbox
          ≡ set_state
              (is_pending_fact calendar host row.fact_id)
              (judge calendar host (find_epoch row.session_id t.epochs) row.accepted_epoch).0
              (judge calendar host (find_epoch row.session_id t.epochs) row.accepted_epoch).1
              now
              t.outbox
        → Change t t'

  pub data Changes : WorkTables → WorkTables → Type 0 where
    done : {t : WorkTables} → Changes t t
    then_change : {t t' t'' : WorkTables} → Change t t' → Changes t' t'' → Changes t t''

  abbrev pub Kept : WorkTables → WorkTables → Type 0
  Kept t t' = (t'.ledger ≡ t.ledger) × (t'.epochs ≡ t.epochs) × (t'.outbox ≡ t.outbox)

  pub metric-Kept :
      (name at : String) (n : ℕ) (t : WorkTables) {t' : WorkTables}
      → metric calendar host name at n t ≡ ok t'
      → Kept t t'
  unfolding metric
  metric-Kept name at n t {t'} h = by_zero (eqb n 0) h
    where
      by_zero :
          (b : Bool)
          → (if b
              then ok t
              else parse_fact_time calendar "metric_timestamp" at >>= λ instant.
                  ok (record t { metrics = add_metric (host.date_of instant) name n t.metrics }))
            ≡ ok t'
          → Kept t t'
      by_zero true h = subst (Kept t) (ok_inj h) (refl, refl, refl)
      by_zero false h =
          let (instant, _, e) =
            >>=-eq-ok (parse_fact_time calendar "metric_timestamp" at)
              (λ i. ok (record t { metrics = add_metric (host.date_of i) name n t.metrics })) h in
          subst (Kept t) (ok_inj e) (refl, refl, refl)
