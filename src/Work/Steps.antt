-- ===== src/Work/Steps.antt =====
-- Each method of WorkStore is a sequence of changes, whether it returns or raises.
use hermes_life_bridge.Prelude.{
  ℕ, ◌+◌, ◌≡◌, refl, sym, subst, ◌∙◌, false, not, ◌||◌, Option, none, some, List, [], ◌∷◌, String,
  arith, ◌==◌, ltb, eqb, first, select, count_where, length,
}
use hermes_life_bridge.Errors.{
  Result, ok, err, ok_inj, value_error, work_conflict, work_corruption, work_contract_error,
  rethrow, raise_if, raise_if-eq-ok, >>=-eq-ok,
}
use hermes_life_bridge.Exec.{transaction, settle-eq-ok, settle-eq-err}
use hermes_life_bridge.Calendar.{Calendar}
use hermes_life_bridge.Store.{one_of}
use hermes_life_bridge.Work.Contract.{WorkFact, ActivityFact, parse_fact_time}
use hermes_life_bridge.Work.Mapping.{
  from_mapping, to_mapping, activity_from_mapping, activity_to_mapping,
}
use hermes_life_bridge.Work.Tables.{
  invalidated, state_name, LedgerRow, ShadowRow, WorkTables, WorkAcceptance, ActivityAcceptance,
  WorkEvaluation, of_fact, of_key, of_shadow, find_epoch, is_found, insert_ledger, insert_shadow,
  set_disposition, set_state,
}
use hermes_life_bridge.Work.Ledger.{
  WorkHost, metric, ensure_epoch, require_epoch, accept_again, ledger_row, shadow_row, accept_new,
  accept_at, accept, bump_epoch, is_outdated, fact_ids, note_activity, judge, is_pending_fact,
  evaluate_row, evaluate_rows, due_rows, evaluate_due, accept_body, note_body, evaluate_body,
}
use hermes_life_bridge.Work.Changes.{
  Change, counted, added, stirred, judged, Changes, done, then_change, metric-Kept,
}

pub insert_ledger-eq-ok :
    (row : LedgerRow) (rows : List LedgerRow) {rows' : List LedgerRow}
    → insert_ledger row rows ≡ ok rows'
    → rows' ≡ row ∷ rows
unfolding insert_ledger
insert_ledger-eq-ok row rows h = ground arith

insert_shadow-eq-ok :
    (row : ShadowRow) (rows : List ShadowRow) {rows' : List ShadowRow}
    → insert_shadow row rows ≡ ok rows'
    → (rows' ≡ row ∷ rows) × (first (of_shadow row.fact_id) rows ≡ none)
unfolding insert_shadow
insert_shadow-eq-ok row rows h = ground arith

not_found {ℓ} : {A : Type ℓ} (o : Option A) → is_found o ≡ false → o ≡ none
not_found none h = refl
not_found (some a) h = absurd cc

is_one : (n : ℕ) → not (eqb n 1) ≡ false → n ≡ 1
is_one n h = ground arith

module _ (calendar : Calendar) (host : WorkHost) where
  one : {t t' : WorkTables} → Change calendar host t t' → Changes calendar host t t'
  one c = then_change c done

  accept_again-Change :
      (old : LedgerRow) (fact : WorkFact) (d : String) (t : WorkTables)
      {r : WorkAcceptance × WorkTables}
      → accept_again calendar host old fact d t ≡ ok r
      → Change calendar host t r.1
  accept_again-Change old fact d t {r} h =
      let (_, _, h1) =
        >>=-eq-ok
          (raise_if (not (old.fact_digest == d))
            (work_conflict "idempotency_key_reused_with_different_fact"))
          _ h in
      let (t', kept, e) = >>=-eq-ok (metric calendar host "duplicate" fact.observed_at 1 t) _ h1 in
      let (l, s, o) = metric-Kept calendar host "duplicate" fact.observed_at 1 t kept in
      subst (λ (x : WorkAcceptance × WorkTables). Change calendar host t x.1) (ok_inj e)
        (counted l s o)

  accept_new-Change :
      (fact : WorkFact) (d : String) (due : ℕ) (t : WorkTables) {r : WorkAcceptance × WorkTables}
      → accept_new calendar host fact d due t ≡ ok r
      → Change calendar host t r.1
  accept_new-Change fact d due t {r} h =
      let epochs' = ensure_epoch calendar host fact.session_id t.epochs in
      let (u, free, h1) =
        >>=-eq-ok
          (raise_if (is_found (first (of_fact fact.fact_id) t.ledger))
            (work_conflict "fact_id_reused"))
          _ h in
      let (epoch, current, h2) =
        >>=-eq-ok (require_epoch calendar host (find_epoch fact.session_id epochs')) _ h1 in
      let (ledger', in_ledger, h3) =
        >>=-eq-ok (insert_ledger (ledger_row calendar host fact d epoch) t.ledger) _ h2 in
      let (outbox', in_outbox, h4) =
        >>=-eq-ok (insert_shadow (shadow_row calendar host fact epoch due) t.outbox) _ h3 in
      let moved : WorkTables = record t { ledger = ledger'; epochs = epochs'; outbox = outbox' } in
      let (t', kept, e) =
        >>=-eq-ok (metric calendar host "accepted" fact.observed_at 1 moved) _ h4 in
      let (l, s, o) = metric-Kept calendar host "accepted" fact.observed_at 1 moved kept in
      let (o', no_shadow) =
        insert_shadow-eq-ok (shadow_row calendar host fact epoch due) t.outbox in_outbox in
      subst (λ (x : WorkAcceptance × WorkTables). Change calendar host t x.1) (ok_inj e)
        (added fact d epoch due
          (not_found (first (of_fact fact.fact_id) t.ledger) (raise_if-eq-ok _ _ free)) no_shadow
          current
          (l ∙ insert_ledger-eq-ok (ledger_row calendar host fact d epoch) t.ledger in_ledger) s
          (o ∙ o'))

  accept_at-Change :
      (old : Option LedgerRow) (fact : WorkFact) (d : String) (due : ℕ) (t : WorkTables)
      {r : WorkAcceptance × WorkTables}
      → accept_at calendar host old fact d due t ≡ ok r
      → Change calendar host t r.1
  accept_at-Change (some old) fact d due t h = accept_again-Change old fact d t h
  accept_at-Change none fact d due t h = accept_new-Change fact d due t h

  -- A transaction that raised left the tables as they were.
  by_result :
      {A : Type 0} (body : WorkTables → Result (A × WorkTables)) (t : WorkTables)
      → ((r : A × WorkTables) → body t ≡ ok r → Changes calendar host t r.1)
      → (r : Result A) (t' : WorkTables) → transaction body t ≡ (r, t')
      → Changes calendar host t t'
  unfolding transaction
  by_result body t h (ok a) t' e = h (a, t') (settle-eq-ok t (body t) e)
  by_result body t h (err f) t' e =
      subst (λ x. Changes calendar host t x) (sym (settle-eq-err t (body t) e)) done

  in_transaction :
      {A : Type 0} (body : WorkTables → Result (A × WorkTables)) (t : WorkTables)
      → ((r : A × WorkTables) → body t ≡ ok r → Changes calendar host t r.1)
      → Changes calendar host t (transaction body t).1
  in_transaction body t h = by_result body t h (transaction body t).0 (transaction body t).1 refl

  accept_body-Changes :
      (given : WorkFact) (delay : ℕ) (t : WorkTables) (r : WorkAcceptance × WorkTables)
      → accept_body calendar host given delay t ≡ ok r
      → Changes calendar host t r.1
  unfolding accept_body
  accept_body-Changes given delay t r h =
      let (fact, _, h1) =
        >>=-eq-ok
          (rethrow (from_mapping calendar (to_mapping given))
            (work_contract_error "invalid_typed_work_fact"))
          _ h in
      let (_, _, h2) =
        >>=-eq-ok
          (raise_if (ltb 604800000000 delay) (value_error "idle_delay_seconds_out_of_range")) _
          h1 in
      let (observed, _, h3) =
        >>=-eq-ok (parse_fact_time calendar "observed_at" fact.observed_at) _ h2 in
      one (
        accept_at-Change (first (of_key fact.idempotency_key) t.ledger) fact (host.digest fact)
          (observed + delay) t h3)

  pub accept-Changes :
      (given : WorkFact) (delay : ℕ) (t : WorkTables)
      → Changes calendar host t (accept calendar host given delay t).1
  unfolding accept
  accept-Changes given delay t =
      in_transaction (accept_body calendar host given delay) t (accept_body-Changes given delay t)

  note_body-Changes :
      (given : ActivityFact) (t : WorkTables) (r : ActivityAcceptance × WorkTables)
      → note_body calendar host given t ≡ ok r
      → Changes calendar host t r.1
  unfolding note_body
  note_body-Changes given t r h =
      let (a, _, h1) =
        >>=-eq-ok
          (rethrow (activity_from_mapping calendar (activity_to_mapping given))
            (work_contract_error "invalid_typed_activity_fact"))
          _ h in
      let epochs' = bump_epoch calendar host a.session_id a.observed_at t.epochs in
      let (epoch, current, h2) =
        >>=-eq-ok (require_epoch calendar host (find_epoch a.session_id epochs')) _ h1 in
      let outdated = is_outdated calendar host a.session_id epoch in
      let ids = fact_ids calendar host (select outdated t.outbox) in
      let moved : WorkTables = record t {
        epochs = epochs';
        outbox = set_state outdated invalidated "newer_session_activity" a.observed_at t.outbox;
        ledger = set_disposition (λ r. one_of r.fact.fact_id ids) invalidated t.ledger;
      } in
      let (t1, kept1, h3) =
        >>=-eq-ok (metric calendar host "activity" a.observed_at 1 moved) _ h2 in
      let (t2, kept2, e) =
        >>=-eq-ok (metric calendar host "invalidated" a.observed_at (length ids) t1) _ h3 in
      let (l1, s1, o1) = metric-Kept calendar host "activity" a.observed_at 1 moved kept1 in
      let (l2, s2, o2) =
        metric-Kept calendar host "invalidated" a.observed_at (length ids) t1 kept2 in
      subst (λ (x : ActivityAcceptance × WorkTables). Changes calendar host t x.1) (ok_inj e)
        (one (stirred a.session_id a.observed_at epoch current (l2 ∙ l1) (s2 ∙ s1) (o2 ∙ o1)))

  pub note_activity-Changes :
      (given : ActivityFact) (t : WorkTables)
      → Changes calendar host t (note_activity calendar host given t).1
  unfolding note_activity
  note_activity-Changes given t =
      in_transaction (note_body calendar host given) t (note_body-Changes given t)

  evaluate_row-Change :
      (now : String) (row : ShadowRow) (t : WorkTables) {r : WorkEvaluation × WorkTables}
      → evaluate_row calendar host now row t ≡ ok r
      → Change calendar host t r.1
  unfolding evaluate_row
  evaluate_row-Change now row t {r} h =
      let verdict = judge calendar host (find_epoch row.session_id t.epochs) row.accepted_epoch in
      let test = is_pending_fact calendar host row.fact_id in
      let (u, once, h1) =
        >>=-eq-ok
          (raise_if (not (eqb (count_where test t.outbox) 1))
            (work_corruption "outbox_transition_lost"))
          _ h in
      let moved : WorkTables = record t {
        outbox = set_state test verdict.0 verdict.1 now t.outbox;
        ledger = set_disposition (of_fact row.fact_id) verdict.0 t.ledger;
      } in
      let (t', kept, e) =
        >>=-eq-ok (metric calendar host (state_name verdict.0) now 1 moved) _ h1 in
      let (l, s, o) = metric-Kept calendar host (state_name verdict.0) now 1 moved kept in
      let lost = raise_if-eq-ok (not (eqb (count_where test t.outbox) 1)) _ once in
      subst (λ (x : WorkEvaluation × WorkTables). Change calendar host t x.1) (ok_inj e)
        (judged now row (is_one (count_where test t.outbox) lost) l s o)

  evaluate_rows-Changes :
      (now : String) (rows : List ShadowRow) (t : WorkTables) {r : List WorkEvaluation × WorkTables}
      → evaluate_rows calendar host now rows t ≡ ok r
      → Changes calendar host t r.1
  unfolding evaluate_rows
  evaluate_rows-Changes now [] t h =
      subst (λ (x : List WorkEvaluation × WorkTables). Changes calendar host t x.1) (ok_inj h) done
  evaluate_rows-Changes now (row ∷ rows) t h =
      let (first_one, judged_one, h1) = >>=-eq-ok (evaluate_row calendar host now row t) _ h in
      let (rest, judged_rest, e) =
        >>=-eq-ok (evaluate_rows calendar host now rows first_one.1) _ h1 in
      subst (λ (x : List WorkEvaluation × WorkTables). Changes calendar host t x.1) (ok_inj e)
        (then_change (evaluate_row-Change now row t judged_one)
          (evaluate_rows-Changes now rows first_one.1 judged_rest))

  evaluate_body-Changes :
      (now : String) (limit : ℕ) (t : WorkTables) (r : List WorkEvaluation × WorkTables)
      → evaluate_body calendar host now limit t ≡ ok r
      → Changes calendar host t r.1
  unfolding evaluate_body
  evaluate_body-Changes now limit t r h =
      let (instant, _, h1) = >>=-eq-ok (parse_fact_time calendar "now" now) _ h in
      let (_, _, h2) =
        >>=-eq-ok (raise_if (ltb limit 1 || ltb 1000 limit) (value_error "limit_out_of_range")) _
          h1 in
      evaluate_rows-Changes now (due_rows calendar host instant limit t) t h2

  pub evaluate_due-Changes :
      (now : String) (limit : ℕ) (t : WorkTables)
      → Changes calendar host t (evaluate_due calendar host now limit t).1
  unfolding evaluate_due
  evaluate_due-Changes now limit t =
      in_transaction (evaluate_body calendar host now limit) t (evaluate_body-Changes now limit t)
