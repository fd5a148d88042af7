-- ===== src/Work/Decided.antt =====
-- The life of an accepted fact: once it is no longer pending, nothing changes its state, and the
-- activity of a session settles what was pending in it.
use mathlib.Core.Option
use hermes_life_bridge.Prelude.{
  ℕ, ◌≡◌, refl, subst, ◌∙◌, inl, inr, Bool-cases, Bool, false, Option, none, some, List, [], ◌∷◌,
  String, arith, ◌==◌, eq_iff, if◌then◌else◌, first, update_where,
}
use hermes_life_bridge.Calendar.{Calendar}
use hermes_life_bridge.Work.Contract.{WorkFact, ActivityFact}
use hermes_life_bridge.Work.Tables.{
  OutboxState, is_pending, ShadowRow, WorkTables, of_shadow, set_state, get_outbox,
}
use hermes_life_bridge.Work.Ledger.{
  WorkHost, accept, note_activity, evaluate_due, is_outdated, is_pending_fact,
}
use hermes_life_bridge.Work.Changes.{
  Change, counted, added, stirred, judged, Changes, done, then_change,
}
use hermes_life_bridge.Work.Steps.{accept-Changes, note_activity-Changes, evaluate_due-Changes}

-- A call of one of the three methods.
pub data WorkCall : Type 0 where
  accepting : WorkFact → ℕ → WorkCall
  noting : ActivityFact → WorkCall
  evaluating : String → ℕ → WorkCall

-- An update that keeps what a search looks at changes what the search finds, and no more.
pub first-update_where {ℓ} :
    {A : Type ℓ} (p test : A → Bool) (f : A → A) (xs : List A)
    → ((x : A) → p (f x) ≡ p x)
    → first p (update_where test f xs) ≡ Option.map (λ x. if test x then f x else x) (first p xs)
unfolding first update_where
first-update_where p test f [] h = refl
first-update_where p test f (x ∷ xs) h = ground (arith, h x, first-update_where p test f xs h)

-- The fact with this id has left the state it was accepted in.
pub record IsDecided (id : String) (row : ShadowRow) (t : WorkTables) : Type 0 where
  pub found : get_outbox id t ≡ some row
  pub decided : is_pending row.state ≡ false

clash {ℓ} : {A : Type ℓ} {o : Option A} {a : A} → o ≡ none → o ≡ some a → ⊥
clash p q = cc

module _ (calendar : Calendar) (host : WorkHost) where
  -- The tables after a call, whether it returned or raised, and after a list of calls.
  abbrev pub after_call : WorkCall → WorkTables → WorkTables
  after_call (accepting fact delay) t = (accept calendar host fact delay t).1
  after_call (noting activity) t = (note_activity calendar host activity t).1
  after_call (evaluating now limit) t = (evaluate_due calendar host now limit t).1

  unfoldable pub after_calls : List WorkCall → WorkTables → WorkTables
  unfolding accept note_activity evaluate_due
  after_calls [] t = t
  after_calls (c ∷ cs) t = after_calls cs (after_call c t)

  call-Changes : (c : WorkCall) (t : WorkTables) → Changes calendar host t (after_call c t)
  call-Changes (accepting fact delay) t = accept-Changes calendar host fact delay t
  call-Changes (noting activity) t = note_activity-Changes calendar host activity t
  call-Changes (evaluating now limit) t = evaluate_due-Changes calendar host now limit t

  module _ (P : WorkTables → Type 0)
      (kept : (t t' : WorkTables) → Change calendar host t t' → P t → P t') where
    changes_keep : {t t' : WorkTables} → Changes calendar host t t' → P t → P t'
    changes_keep done p = p
    changes_keep (then_change {t} {t'} c cs) p = changes_keep cs (kept t t' c p)

    -- What every change keeps holds after any calls.
    pub calls_keep : (cs : List WorkCall) (t : WorkTables) → P t → P (after_calls cs t)
    unfolding after_calls
    calls_keep [] t p = p
    calls_keep (c ∷ cs) t p = calls_keep cs (after_call c t) (changes_keep (call-Changes c t) p)

  module _ (id : String) (row : ShadowRow) (decided : is_pending row.state ≡ false) where
    -- An update of pending rows only leaves a decided row.
    set_state_kept :
        (test : ShadowRow → Bool) (s : OutboxState) (reason at : String) (rows : List ShadowRow)
        → ((r : ShadowRow) → is_pending r.state ≡ false → test r ≡ false)
        → first (of_shadow id) rows ≡ some row
        → first (of_shadow id) (set_state test s reason at rows) ≡ some row
    unfolding set_state
    set_state_kept test s reason at rows only_pending found =
        first-update_where (of_shadow id) test
          (λ r. record r { state = s; reason = reason; updated_at = at }) rows (λ r. refl)
        ∙ rw (found, only_pending row decided) refl

    Change-kept :
        (t t' : WorkTables)
        → Change calendar host t t'
        → get_outbox id t ≡ some row
        → get_outbox id t' ≡ some row
    unfolding get_outbox first
    Change-kept t t' (counted l e o) found = rw o found
    Change-kept t t' (added fact d epoch due in_ledger free current l e o) found =
        rw o (elim (Bool-cases (fact.fact_id == id)) [
          | inl same ↦ absurd (
              clash
                (subst (λ i. first (of_shadow i) t.outbox ≡ none) ((eq_iff fact.fact_id id).0 same)
                  free)
                found)
          | inr other ↦ rw other found
        ])
    Change-kept t t' (stirred session at epoch current l e o) found = rw o (
        set_state_kept (is_outdated calendar host session epoch) _ _ _ t.outbox
          (λ r p. ground arith) found)
    Change-kept t t' (judged now r single l e o) found = rw o (
        set_state_kept (is_pending_fact calendar host r.fact_id) _ _ _ t.outbox
          (λ r p. ground arith) found)

    -- A fact that is no longer pending keeps its outbox row, whatever is called.
    pub decided_for_good :
        (cs : List WorkCall) (t : WorkTables)
        → get_outbox id t ≡ some row
        → get_outbox id (after_calls cs t) ≡ some row
    decided_for_good cs t found =
        calls_keep (λ t. get_outbox id t ≡ some row) Change-kept cs t found
