-- ===== src/Work/Lifecycle.antt =====
-- The state machine that WorkStore's methods keep to: the outbox has no delivered and no retry state.
use mathlib.Core.Option
use hermes_life_bridge.Prelude.{
  ℕ, ◌≡◌, refl, sym, subst, inl, inr, Bool-cases, Bool, true, false, Option, none, some, List,
  String, arith, ◌==◌, eq_iff, if◌then◌else◌, first,
}
use hermes_life_bridge.Calendar.{Calendar}
use hermes_life_bridge.Work.Tables.{
  OutboxState, pending_idle, invalidated, suppressed, shadow_candidate, is_pending, EpochRow,
  ShadowRow, WorkTables, of_shadow, set_state, get_outbox,
}
use hermes_life_bridge.Work.Ledger.{WorkHost, is_outdated, is_pending_fact, judge}
use hermes_life_bridge.Work.Changes.{Change, counted, added, stirred, judged}
use hermes_life_bridge.Work.Decided.{WorkCall, after_calls, calls_keep, first-update_where}

-- What may happen to a fact: it is accepted, and then settled once.
pub data FactMove : Option OutboxState → Option OutboxState → Type 0 where
  stays : {s : Option OutboxState} → FactMove s s
  is_accepted : FactMove none (some pending_idle)
  is_settled : (s : OutboxState) → is_pending s ≡ false → FactMove (some pending_idle) (some s)

pub data FactLife : Option OutboxState → Option OutboxState → Type 0 where
  untouched : {s : Option OutboxState} → FactLife s s
  and_then : {s s' s'' : Option OutboxState} → FactLife s s' → FactMove s' s'' → FactLife s s''

-- The state of a fact, if it was accepted.
abbrev pub fact_state : String → WorkTables → Option OutboxState
fact_state id t = Option.map (λ (r : ShadowRow). r.state) (get_outbox id t)

pending_only : (s : OutboxState) → is_pending s ≡ true → s ≡ pending_idle
pending_only pending_idle h = refl
pending_only invalidated h = absurd cc
pending_only suppressed h = absurd cc
pending_only shadow_candidate h = absurd cc

-- An update of pending rows to a settled state moves each fact as it may.
set_state-FactMove :
    (id : String) (test : ShadowRow → Bool) (s : OutboxState) (reason at : String)
    (rows : List ShadowRow)
    → is_pending s ≡ false
    → ((r : ShadowRow) → test r ≡ true → is_pending r.state ≡ true)
    → FactMove (Option.map (λ (r : ShadowRow). r.state) (first (of_shadow id) rows)) (
        Option.map
          (λ (r : ShadowRow). r.state)
          (first (of_shadow id) (set_state test s reason at rows)))
unfolding set_state
set_state-FactMove id test s reason at rows settled only_pending =
    subst
      (λ (o : Option ShadowRow).
        FactMove (Option.map (λ (r : ShadowRow). r.state) (first (of_shadow id) rows))
          (Option.map (λ (r : ShadowRow). r.state) o))
      (sym (first-update_where (of_shadow id) test written rows (λ r. refl)))
      (found (first (of_shadow id) rows))
  where
    written : ShadowRow → ShadowRow
    written r = record r { state = s; reason = reason; updated_at = at }

    by_test :
        (r : ShadowRow) (b : Bool)
        → test r ≡ b
        → FactMove (some r.state) (some (if b then written r else r).state)
    by_test r true e =
        subst (λ x. FactMove (some x) (some s)) (sym (pending_only r.state (only_pending r e)))
          (is_settled s settled)
    by_test r false e = stays

    found :
        (o : Option ShadowRow)
        → FactMove (Option.map (λ (r : ShadowRow). r.state) o) (
            Option.map
              (λ (r : ShadowRow). r.state)
              (Option.map (λ x. if test x then written x else x) o))
    found none = stays
    found (some r) = by_test r (test r) refl

module _ (calendar : Calendar) (host : WorkHost) where
  judge_settles :
      (o : Option EpochRow) (accepted : ℕ) → is_pending (judge calendar host o accepted).0 ≡ false
  judge_settles none accepted = refl
  judge_settles (some row) accepted = ground arith

  Change-FactMove :
      (id : String) (t t' : WorkTables)
      → Change calendar host t t'
      → FactMove (fact_state id t) (fact_state id t')
  unfolding get_outbox first
  Change-FactMove id t t' (counted l e o) = rw o stays
  Change-FactMove id t t' (added fact d epoch due in_ledger free now l e o) =
      elim (Bool-cases (fact.fact_id == id)) [
        | inl same ↦
            rw
              (
                o,
                same,
                subst (λ i. first (of_shadow i) t.outbox ≡ none) ((eq_iff fact.fact_id id).0 same)
                    free,
              )
              is_accepted
        | inr other ↦ rw (o, other) stays
      ]
  Change-FactMove id t t' (stirred session at epoch now l e o) = rw o (
      set_state-FactMove id (is_outdated calendar host session epoch) invalidated _ _ t.outbox refl
        (λ r h. ground (arith, h)))
  Change-FactMove id t t' (judged now row single l e o) = rw o (
      set_state-FactMove id (is_pending_fact calendar host row.fact_id) _ _ _ t.outbox
        (judge_settles _ row.accepted_epoch) (λ r h. ground (arith, h)))

  -- Whatever is called, each fact moves only from not accepted to pending, and from pending to one
  -- of the three settled states.
  pub after_calls-FactLife :
      (cs : List WorkCall) (id : String) (t : WorkTables)
      → FactLife (fact_state id t) (fact_state id (after_calls calendar host cs t))
  after_calls-FactLife cs id t =
      calls_keep calendar host (λ t'. FactLife (fact_state id t) (fact_state id t'))
        (λ t1 t2 c life. and_then life (Change-FactMove id t1 t2 c)) cs t untouched
