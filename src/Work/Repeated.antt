-- ===== src/Work/Repeated.antt =====
-- A fact that is accepted twice.
use hermes_life_bridge.Prelude.{
  ℕ, ◌+◌, ◌≡◌, refl, sym, ap, ◌∙◌, subst, not, Option, none, some, ◌∷◌, String, arith, ◌==◌, eq_iff,
  first, ltb,
}
use hermes_life_bridge.Errors.{
  ok, ok_inj, value_error, work_conflict, work_contract_error, rethrow, raise_if, >>=-eq-ok,
}
use hermes_life_bridge.Exec.{transaction, settle-eq-ok}
use hermes_life_bridge.Calendar.{Calendar}
use hermes_life_bridge.Work.Contract.{WorkFact, parse_fact_time}
use hermes_life_bridge.Work.Mapping.{from_mapping, to_mapping}
use hermes_life_bridge.Work.Tables.{
  LedgerRow, WorkTables, WorkAcceptance, of_fact, of_key, find_epoch, is_found, insert_ledger,
  insert_shadow, add_metric,
}
use hermes_life_bridge.Work.Ledger.{
  WorkHost, metric, ensure_epoch, require_epoch, accept_again, ledger_row, shadow_row, accept_new,
  accept_at, accept_body, accept,
}
use hermes_life_bridge.Work.Changes.{Kept, metric-Kept}
use hermes_life_bridge.Work.Steps.{insert_ledger-eq-ok}

module _ (calendar : Calendar) (host : WorkHost) where
  -- A time that was counted once can be counted again.
  metric_again :
      (name name' at : String) (t u : WorkTables) {t' : WorkTables}
      → metric calendar host name at 1 t ≡ ok t'
      → (u' : WorkTables) × (metric calendar host name' at 1 u ≡ ok u') × Kept calendar host u u'
  unfolding metric
  metric_again name name' at t u h =
      let (instant, parsed, _) = >>=-eq-ok (parse_fact_time calendar "metric_timestamp" at) _ h in
      (
        record u { metrics = add_metric (host.date_of instant) name' 1 u.metrics },
        rw parsed refl,
        (refl, refl, refl),
      )

  -- A further call for a key that is there.
  abbrev Repeats : Option LedgerRow → WorkFact → String → ℕ → WorkAcceptance → WorkTables → Type 0
  Repeats found fact d due a t =
      (t' : WorkTables) × (accept_at calendar host found fact d due t
        ≡ ok (record a { status = "duplicate" }, t'))
      × Kept calendar host t t'

  accept_again_repeats :
      (old : LedgerRow) (fact : WorkFact) (d : String) (due : ℕ) (name : String) (s t : WorkTables)
      {s' : WorkTables}
      → old.fact_digest ≡ d
      → metric calendar host name fact.observed_at 1 s ≡ ok s'
      → (t' : WorkTables) × (accept_again calendar host old fact d t
          ≡ ok (
            record {
              status = "duplicate";
              fact_id = old.fact.fact_id;
              idempotency_key = old.fact.idempotency_key;
              fact_digest = old.fact_digest;
              accepted_epoch = old.accepted_epoch;
              outbox_state = old.disposition;
            },
            t',
          ))
        × Kept calendar host t t'
  accept_again_repeats old fact d due name s t same h =
      let (t', counted, kept) = metric_again name "duplicate" fact.observed_at s t h in
      (t', rw ((eq_iff old.fact_digest d).1 same, counted) refl, kept)

  at_key_again :
      (old : LedgerRow) (fact : WorkFact) (d : String) (due : ℕ) (t : WorkTables)
      {a : WorkAcceptance} {t' : WorkTables}
      → accept_again calendar host old fact d t ≡ ok (a, t')
      → (t'.ledger ≡ t.ledger) × Repeats (some old) fact d due a t'
  at_key_again old fact d due t {a} {t'} h =
      let (_, same, h1) =
        >>=-eq-ok
          (raise_if (not (old.fact_digest == d))
            (work_conflict "idempotency_key_reused_with_different_fact"))
          _ h in
      let (u, counted, e) =
        >>=-eq-ok (metric calendar host "duplicate" fact.observed_at 1 t) _ h1 in
      let (l, _, _) = metric-Kept calendar host "duplicate" fact.observed_at 1 t counted in
      let (t'', again, kept) =
        accept_again_repeats old fact d due "duplicate" t t' (same_digest old.fact_digest d same)
          counted in
      (
        ap (λ (x : WorkAcceptance × WorkTables). x.1.ledger) (sym (ok_inj e)) ∙ l,
        (
          t'',
          again
              ∙ ap
                  (λ (x : WorkAcceptance × WorkTables).
                    ok (record x.0 { status = "duplicate" }, t''))
                  (ok_inj e),
          kept,
        ),
      )
    where
      same_digest :
          (x y : String) {u : Unit}
          → raise_if (not (x == y)) (work_conflict "idempotency_key_reused_with_different_fact")
            ≡ ok u
          → x ≡ y
      same_digest x y h = (eq_iff x y).0 (ground arith)

  at_new_key :
      (fact : WorkFact) (d : String) (due : ℕ) (t : WorkTables) {a : WorkAcceptance}
      {t' : WorkTables}
      → accept_new calendar host fact d due t ≡ ok (a, t')
      → Repeats (first (of_key fact.idempotency_key) t'.ledger) fact d due a t'
  unfolding first
  at_new_key fact d due t {a} {t'} h =
      let epochs' = ensure_epoch calendar host fact.session_id t.epochs in
      let (_, free, h1) =
        >>=-eq-ok
          (raise_if (is_found (first (of_fact fact.fact_id) t.ledger))
            (work_conflict "fact_id_reused"))
          _ h in
      let (epoch, current, h2) =
        >>=-eq-ok (require_epoch calendar host (find_epoch fact.session_id epochs')) _ h1 in
      let row = ledger_row calendar host fact d epoch in
      let (ledger', in_ledger, h3) = >>=-eq-ok (insert_ledger row t.ledger) _ h2 in
      let (outbox', in_outbox, h4) =
        >>=-eq-ok (insert_shadow (shadow_row calendar host fact epoch due) t.outbox) _ h3 in
      let moved : WorkTables = record t { ledger = ledger'; epochs = epochs'; outbox = outbox' } in
      let (u, counted, e) =
        >>=-eq-ok (metric calendar host "accepted" fact.observed_at 1 moved) _ h4 in
      let (l, _, _) = metric-Kept calendar host "accepted" fact.observed_at 1 moved counted in
      let stored : t'.ledger ≡ row ∷ t.ledger =
        ap (λ (x : WorkAcceptance × WorkTables). x.1.ledger) (sym (ok_inj e))
        ∙ l
        ∙ insert_ledger-eq-ok row t.ledger in_ledger in
      let found : first (of_key fact.idempotency_key) t'.ledger ≡ some row =
        rw (stored, (eq_iff fact.idempotency_key fact.idempotency_key).1 refl) refl in
      let (t'', again, kept) =
        accept_again_repeats row fact d due "accepted" moved t' refl counted in
      rw found (
        t'',
        again
            ∙ ap
                (λ (x : WorkAcceptance × WorkTables). ok (record x.0 { status = "duplicate" }, t''))
                (ok_inj e),
        kept,
      )

  at_key :
      (found : Option LedgerRow) (fact : WorkFact) (d : String) (due : ℕ) (t : WorkTables)
      {a : WorkAcceptance} {t' : WorkTables}
      → first (of_key fact.idempotency_key) t.ledger ≡ found
      → accept_at calendar host found fact d due t ≡ ok (a, t')
      → Repeats (first (of_key fact.idempotency_key) t'.ledger) fact d due a t'
  at_key none fact d due t e h = at_new_key fact d due t h
  at_key (some old) fact d due t {a} {t'} e h =
      let (l, again) = at_key_again old fact d due t h in
      subst (λ o. Repeats o fact d due a t') (sym (ap (first (of_key fact.idempotency_key)) l ∙ e))
        again

  accept_by_steps :
      (given fact : WorkFact) (delay observed : ℕ) (t : WorkTables) {u : Unit {0}}
      {a : WorkAcceptance} {t' : WorkTables}
      → rethrow
          (from_mapping calendar (to_mapping given))
          (work_contract_error "invalid_typed_work_fact")
        ≡ ok fact
      → raise_if (ltb 604800000000 delay) (value_error "idle_delay_seconds_out_of_range") ≡ ok u
      → parse_fact_time calendar "observed_at" fact.observed_at ≡ ok observed
      → accept_at calendar host
          (first (of_key fact.idempotency_key) t.ledger)
          fact
          (host.digest fact)
          (observed + delay)
          t
        ≡ ok (a, t')
      → accept calendar host given delay t ≡ (ok a, t')
  unfolding accept transaction accept_body
  accept_by_steps given fact delay observed t read short parsed settled =
      rw (read, short, parsed, settled) refl

  -- A fact that was accepted, for the first time or again, is answered as a duplicate with the same
  -- data if it is given once more, and that call leaves the ledger, the epochs and the outbox
  -- alone.
  pub accept_twice :
      (given : WorkFact) (delay : ℕ) (t : WorkTables) {a : WorkAcceptance} {t' : WorkTables}
      → accept calendar host given delay t ≡ (ok a, t')
      → (t'' : WorkTables) × (accept calendar host given delay t'
          ≡ (ok (record a { status = "duplicate" }), t''))
        × (t''.ledger ≡ t'.ledger)
        × (t''.epochs ≡ t'.epochs)
        × (t''.outbox ≡ t'.outbox)
  unfolding accept transaction accept_body
  accept_twice given delay t {a} {t'} h =
      let returned = settle-eq-ok t (accept_body calendar host given delay t) h in
      let (fact, read, h1) =
        >>=-eq-ok
          (rethrow (from_mapping calendar (to_mapping given))
            (work_contract_error "invalid_typed_work_fact"))
          _ returned in
      let (_, short, h2) =
        >>=-eq-ok
          (raise_if (ltb 604800000000 delay) (value_error "idle_delay_seconds_out_of_range")) _
          h1 in
      let (observed, parsed, h3) =
        >>=-eq-ok (parse_fact_time calendar "observed_at" fact.observed_at) _ h2 in
      let (t'', again, kept) =
        at_key (first (of_key fact.idempotency_key) t.ledger) fact (host.digest fact)
          (observed + delay) t refl h3 in
      (
        t'',
        accept_by_steps given fact delay observed t' read short parsed again,
        kept.0,
        kept.1,
        kept.2,
      )
