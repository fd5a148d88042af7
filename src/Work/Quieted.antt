-- ===== src/Work/Quieted.antt =====
-- The activity of a session leaves no fact pending in it.
use hermes_life_bridge.Prelude.{
  ℕ, ◌+◌, ◌≤◌, ◌<◌, ◌≡◌, refl, sym, subst, ◌∙◌, Bool, true, false, List, [], ◌∷◌, String, arith,
  ◌==◌, eq_iff, ltb, if◌then◌else◌, All, All-map, select, update_where, All-update_where, length,
}
use hermes_life_bridge.Errors.{ok, ok_inj, work_contract_error, rethrow, >>=-eq-ok}
use hermes_life_bridge.Exec.{transaction, settle-eq-ok}
use hermes_life_bridge.Calendar.{Calendar}
use hermes_life_bridge.Store.{one_of}
use hermes_life_bridge.Work.Contract.{ActivityFact}
use hermes_life_bridge.Work.Mapping.{activity_from_mapping, activity_to_mapping}
use hermes_life_bridge.Work.Tables.{
  OutboxState, invalidated, is_pending, EpochRow, ShadowRow, WorkTables, ActivityAcceptance,
  set_state, set_disposition, find_epoch,
}
use hermes_life_bridge.Work.Ledger.{
  WorkHost, metric, require_epoch, bump_epoch, note_activity, note_body, is_outdated, fact_ids,
}
use hermes_life_bridge.Work.Changes.{Change, counted, added, stirred, judged, metric-Kept}
use hermes_life_bridge.Work.Decided.{WorkCall, after_calls, calls_keep}
use hermes_life_bridge.Work.Idle.{
  current, require_epoch-current, current-ensure_epoch, current-bump_epoch,
}

lt→ltb : (a b : ℕ) → a < b → ltb a b ≡ true
lt→ltb a b h = ground arith

-- No fact was accepted in an epoch that its session has not reached.
abbrev Covered : WorkTables → Type 0
Covered t = All (λ (r : ShadowRow). r.accepted_epoch ≤ current r.session_id t.epochs) t.outbox

abbrev Reached : List EpochRow → List ShadowRow → Type 0
Reached epochs rows = All (λ (r : ShadowRow). r.accepted_epoch ≤ current r.session_id epochs) rows

set_state-Reached :
    (epochs : List EpochRow) (test : ShadowRow → Bool) (s : OutboxState) (reason at : String)
    (rows : List ShadowRow)
    → Reached epochs rows
    → Reached epochs (set_state test s reason at rows)
unfolding set_state
set_state-Reached epochs test s reason at rows h =
    All-update_where test (λ r. record r { state = s; reason = reason; updated_at = at })
      {P = λ r. r.accepted_epoch ≤ current r.session_id epochs} rows (λ r _ k. k) h

module _ (calendar : Calendar) (host : WorkHost) where
  bump_grows :
      (s session at : String) (rows : List EpochRow)
      → current s rows ≤ current s (bump_epoch calendar host session at rows)
  bump_grows s session at rows =
      rw (current-bump_epoch calendar host s session rows at)
        (grows (session == s) (current s rows))
    where
      grows : (b : Bool) (n : ℕ) → n ≤ (if b then n + 1 else n)
      grows true n = omega arith
      grows false n = omega arith

  Change-Covered : (t t' : WorkTables) → Change calendar host t t' → Covered t → Covered t'
  Change-Covered t t' (counted l e o) h = rw (e, o) h
  Change-Covered t t' (added fact d epoch due in_ledger free now l e o) h =
      rw (e, o)
        ((
          omega (arith, require_epoch-current calendar host _ now),
          All-map {P = λ r. r.accepted_epoch ≤ current r.session_id t.epochs} t.outbox
              (λ r k. omega (
                arith,
                k,
                current-ensure_epoch calendar host r.session_id fact.session_id t.epochs,
              ))
              h,
        ))
  Change-Covered t t' (stirred session at epoch now l e o) h =
      rw (e, o)
        (set_state-Reached _ _ _ _ _ t.outbox (
          All-map {P = λ r. r.accepted_epoch ≤ current r.session_id t.epochs} t.outbox
            (λ r k. omega (arith, k, bump_grows r.session_id session at t.epochs)) h))
  Change-Covered t t' (judged now row single l e o) h =
      rw (e, o) (set_state-Reached t.epochs _ _ _ _ t.outbox h)

  -- What an activity leaves of a row.
  abbrev Quiet : String → ShadowRow → Type 0
  Quiet session r = r.session_id ≡ session → is_pending r.state ≡ false

  stirred-Quiet :
      (session at : String) (epoch : ℕ) (epochs : List EpochRow) (rows : List ShadowRow)
      → current session epochs < epoch
      → Reached epochs rows
      → All (Quiet session) (
          set_state
            (is_outdated calendar host session epoch)
            invalidated
            "newer_session_activity"
            at
            rows)
  unfolding set_state update_where
  stirred-Quiet session at epoch epochs [] newer h = tt
  stirred-Quiet session at epoch epochs (r ∷ rs) newer h = (
    settled (is_outdated calendar host session epoch r) refl,
    stirred-Quiet session at epoch epochs rs newer h.1,
  )
    where
      settled :
          (b : Bool)
          → is_outdated calendar host session epoch r ≡ b
          → Quiet session (
              if b
              then record r {
                state = invalidated;
                reason = "newer_session_activity";
                updated_at = at;
              }
              else r)
      settled true e same = refl
      settled false e same =
          let reached : r.accepted_epoch ≤ current session epochs =
            subst (λ i. r.accepted_epoch ≤ current i epochs) same h.0 in
          let older : r.accepted_epoch < epoch = omega (arith, reached, newer) in
          rw ((eq_iff r.session_id session).1 same, lt→ltb r.accepted_epoch epoch older) at e

  note_body-Quiet :
      (given : ActivityFact) (t : WorkTables) (r : ActivityAcceptance × WorkTables)
      → note_body calendar host given t ≡ ok r
      → Covered t
      → All (Quiet r.0.session_id) r.1.outbox
  unfolding note_body
  note_body-Quiet given t r h covered =
      let (a, _, h1) =
        >>=-eq-ok
          (rethrow (activity_from_mapping calendar (activity_to_mapping given))
            (work_contract_error "invalid_typed_activity_fact"))
          _ h in
      let epochs' = bump_epoch calendar host a.session_id a.observed_at t.epochs in
      let (epoch, now, h2) =
        >>=-eq-ok (require_epoch calendar host (find_epoch a.session_id epochs')) _ h1 in
      let outdated = is_outdated calendar host a.session_id epoch in
      let ids = fact_ids calendar host (select outdated t.outbox) in
      let moved : WorkTables = record t {
        epochs = epochs';
        outbox = set_state outdated invalidated "newer_session_activity" a.observed_at t.outbox;
        ledger = set_disposition (λ r. one_of r.fact.fact_id ids) invalidated t.ledger;
      } in
      let (t1, kept1, h3) =
        >>=-eq-ok (metric calendar host "activity" a.observed_at 1 moved) _ h2 in
      let (t2, kept2, e) =
        >>=-eq-ok (metric calendar host "invalidated" a.observed_at (length ids) t1) _ h3 in
      let (_, _, o1) = metric-Kept calendar host "activity" a.observed_at 1 moved kept1 in
      let (_, _, o2) =
        metric-Kept calendar host "invalidated" a.observed_at (length ids) t1 kept2 in
      subst (λ (x : ActivityAcceptance × WorkTables). All (Quiet x.0.session_id) x.1.outbox)
        (ok_inj e)
        (subst (λ rows. All (Quiet a.session_id) rows) (sym (o2 ∙ o1))
          (stirred-Quiet a.session_id a.observed_at epoch t.epochs t.outbox
            (newer a.session_id a.observed_at t.epochs (require_epoch-current calendar host _ now))
            covered))
    where
      newer :
          (s at : String) (rows : List EpochRow) {n : ℕ}
          → n ≡ current s (bump_epoch calendar host s at rows)
          → current s rows < n
      newer s at rows e =
          let b = current-bump_epoch calendar host s s rows at in
          let b' : current s (bump_epoch calendar host s at rows) ≡ current s rows + 1 =
            rw ((eq_iff s s).1 refl) at b in
          omega (arith, e, b')

  abbrev pub nothing_yet : WorkTables
  nothing_yet = record { ledger = []; epochs = []; outbox = []; metrics = [] }

  -- After an activity of a session was noted in a store that any calls have built from nothing, no
  -- fact of that session is pending.
  pub note_activity_settles :
      (cs : List WorkCall) (given : ActivityFact) {a : ActivityAcceptance} {t' : WorkTables}
      → note_activity calendar host given (after_calls calendar host cs nothing_yet) ≡ (ok a, t')
      → All (λ (r : ShadowRow). r.session_id ≡ a.session_id → is_pending r.state ≡ false) t'.outbox
  unfolding note_activity transaction
  note_activity_settles cs given {a} {t'} h =
      let t = after_calls calendar host cs nothing_yet in
      note_body-Quiet given t (a, t') (settle-eq-ok t (note_body calendar host given t) h)
        (calls_keep calendar host Covered Change-Covered cs nothing_yet tt)
