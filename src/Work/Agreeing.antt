-- ===== src/Work/Agreeing.antt =====
-- The ledger and the outbox tell the same of each fact.
use mathlib.Core.Option
use hermes_life_bridge.Prelude.{
  not_equal, ◌≡◌, refl, sym, ap, subst, ◌∙◌, inl, inr, Bool-cases, Bool, true, false, some, List,
  [], ◌∷◌, String, arith, ◌==◌, eq_iff, if◌then◌else◌, All, All-map, All-both, Distinct,
  Distinct-update_where, first, select, count_where, count_where_none, update_where,
}
use hermes_life_bridge.Calendar.{Calendar}
use hermes_life_bridge.Store.{one_of, All-first-none}
use hermes_life_bridge.Work.Tables.{
  OutboxState, LedgerRow, ShadowRow, WorkTables, of_fact, of_shadow, set_disposition, set_state,
  get_ledger, get_outbox,
}
use hermes_life_bridge.Work.Ledger.{WorkHost, is_outdated, is_pending_fact, fact_ids}
use hermes_life_bridge.Work.Changes.{Change, counted, added, stirred, judged}
use hermes_life_bridge.Work.Decided.{WorkCall, after_calls, calls_keep}
use hermes_life_bridge.Work.Quieted.{nothing_yet}

abbrev Alike : LedgerRow → ShadowRow → Type 0
Alike l s = (l.fact.fact_id ≡ s.fact_id) × (l.disposition ≡ s.state)

-- The rows of the two tables belong together, one by one.
abbrev Paired : List LedgerRow → List ShadowRow → Type 0
Paired [] [] = Unit
Paired [] (s ∷ ss) = ⊥
Paired (l ∷ ls) [] = ⊥
Paired (l ∷ ls) (s ∷ ss) = Alike l s × Paired ls ss

abbrev same_fact : ShadowRow → ShadowRow → Bool
same_fact y x = y.fact_id == x.fact_id

-- The tables agree, and no fact has two rows.
abbrev Agreeing : WorkTables → Type 0
Agreeing t = Paired t.ledger t.outbox × Distinct same_fact t.outbox

Paired-updated :
    (q : String → Bool) (p : ShadowRow → Bool) (v : OutboxState) (reason at : String)
    (ls : List LedgerRow) (ss : List ShadowRow)
    → Paired ls ss
    → All (λ s. q s.fact_id ≡ p s) ss
    → Paired (set_disposition (λ r. q r.fact.fact_id) v ls) (set_state p v reason at ss)
unfolding set_disposition set_state update_where
Paired-updated q p v reason at [] [] h k = tt
Paired-updated q p v reason at [] (s ∷ ss) h k = elim h [ ]
Paired-updated q p v reason at (l ∷ ls) [] h k = elim h [ ]
Paired-updated q p v reason at (l ∷ ls) (s ∷ ss) h k = (
  subst
      (λ b.
        Alike (if b then record l { disposition = v } else l)
          (if p s then record s { state = v; reason = reason; updated_at = at } else s))
      (sym (ap q h.0.0 ∙ k.0)) (pick (p s)),
  Paired-updated q p v reason at ls ss h.1 k.1,
)
  where
    pick :
        (b : Bool)
        → Alike
            (if b then record l { disposition = v } else l)
            (if b then record s { state = v; reason = reason; updated_at = at } else s)
    pick true = (h.0.0, refl)
    pick false = h.0

Distinct-set_state :
    (p : ShadowRow → Bool) (v : OutboxState) (reason at : String) (ss : List ShadowRow)
    → Distinct same_fact ss
    → Distinct same_fact (set_state p v reason at ss)
unfolding set_state
Distinct-set_state p v reason at ss d =
    Distinct-update_where p (λ r. record r { state = v; reason = reason; updated_at = at })
      same_fact (λ x y. refl) (λ x y. refl) ss d

-- Rows that belong together are found together.
Paired-first :
    (id : String) (ls : List LedgerRow) (ss : List ShadowRow)
    → Paired ls ss
    → Option.map (λ (l : LedgerRow). l.disposition) (first (of_fact id) ls)
      ≡ Option.map (λ (s : ShadowRow). s.state) (first (of_shadow id) ss)
unfolding first
Paired-first id [] [] h = refl
Paired-first id [] (s ∷ ss) h = elim h [ ]
Paired-first id (l ∷ ls) [] h = elim h [ ]
Paired-first id (l ∷ ls) (s ∷ ss) h =
    subst
      (λ i.
        Option.map (λ (l : LedgerRow). l.disposition)
          (if i == id then some l else first (of_fact id) ls)
        ≡ Option.map (λ (s : ShadowRow). s.state) (first (of_shadow id) (s ∷ ss)))
      (sym h.0.0) (pick (Paired-first id ls ss h.1) (s.fact_id == id))
  where
    pick :
        Option.map (λ (l : LedgerRow). l.disposition) (first (of_fact id) ls)
          ≡ Option.map (λ (s : ShadowRow). s.state) (first (of_shadow id) ss)
        → (b : Bool)
        → Option.map
            (λ (l : LedgerRow). l.disposition)
            (if b then some l else first (of_fact id) ls)
          ≡ Option.map (λ (s : ShadowRow). s.state) (if b then some s else first (of_shadow id) ss)
    pick rest true = ap some h.0.1
    pick rest false = rest

module _ (calendar : Calendar) (host : WorkHost) where
  -- If one pending row has the id, each row with the id is pending.
  judged_alone :
      (id : String) (ss : List ShadowRow)
      → Distinct same_fact ss
      → count_where (is_pending_fact calendar host id) ss ≡ 1
      → All (λ s. (s.fact_id == id) ≡ is_pending_fact calendar host id s) ss
  unfolding count_where
  judged_alone id [] d one = tt
  judged_alone id (s ∷ ss) d one = elim (Bool-cases (s.fact_id == id)) [
    | inl same ↦
        let others : All (λ (y : ShadowRow). (y.fact_id == id) ≡ false) ss =
          subst (λ i. All (λ (y : ShadowRow). (y.fact_id == i) ≡ false) ss)
            ((eq_iff s.fact_id id).0 same) d.0 in
        let none_pending : count_where (is_pending_fact calendar host id) ss ≡ 0 =
          count_where_none (is_pending_fact calendar host id) ss
            (All-map {P = λ y. (y.fact_id == id) ≡ false} ss (λ y e. rw e refl) others) in
        (
          ground (arith, same, none_pending, one),
          All-map {P = λ y. (y.fact_id == id) ≡ false} ss (λ y e. rw e refl) others,
        )
    | inr other ↦ (rw other refl, judged_alone id ss d.1 (ground (arith, other, one)))
  ]

  absent :
      (p : ShadowRow → Bool) (id : String) (ss : List ShadowRow)
      → All (λ (y : ShadowRow). (y.fact_id == id) ≡ false) ss
      → one_of id (fact_ids calendar host (select p ss)) ≡ false
  unfolding one_of fact_ids select
  absent p id [] h = refl
  absent p id (s ∷ ss) h = elim (Bool-cases (p s)) [
    | inl chosen ↦ rw (chosen, not_equal id s.fact_id h.0) (absent p id ss h.1)
    | inr skipped ↦ rw skipped (absent p id ss h.1)
  ]

  -- The ids of selected rows are those of no other row.
  selected_alone :
      (p : ShadowRow → Bool) (ss : List ShadowRow)
      → Distinct same_fact ss
      → All (λ s. one_of s.fact_id (fact_ids calendar host (select p ss)) ≡ p s) ss
  unfolding one_of fact_ids select
  selected_alone p [] d = tt
  selected_alone p (s ∷ ss) d =
      let rest = selected_alone p ss d.1 in
      elim (Bool-cases (p s)) [
        | inl chosen ↦ (
          rw (chosen, (eq_iff s.fact_id s.fact_id).1 refl) refl,
          All-map
              {P = λ y.
                ((y.fact_id == s.fact_id) ≡ false)
                × (one_of y.fact_id (fact_ids calendar host (select p ss)) ≡ p y)}
              ss (λ y h. rw (chosen, h.0) h.1)
              (All-both (λ y. (y.fact_id == s.fact_id) ≡ false)
                (λ y. one_of y.fact_id (fact_ids calendar host (select p ss)) ≡ p y) ss d.0 rest),
        )
        | inr skipped ↦ (
          rw skipped (absent p s.fact_id ss d.0),
          All-map {P = λ y. one_of y.fact_id (fact_ids calendar host (select p ss)) ≡ p y} ss
              (λ y e. rw skipped e) rest,
        )
      ]

  Change-Agreeing : (t t' : WorkTables) → Change calendar host t t' → Agreeing t → Agreeing t'
  unfolding first
  Change-Agreeing t t' (counted l e o) h = rw (l, o) h
  Change-Agreeing t t' (added fact d epoch due in_ledger free now l e o) h =
      rw (l, o) (((refl, refl), h.0), (All-first-none (of_shadow fact.fact_id) t.outbox free, h.1))
  Change-Agreeing t t' (stirred session at epoch now l e o) h =
      let outdated = is_outdated calendar host session epoch in
      let ids = fact_ids calendar host (select outdated t.outbox) in
      rw (l, o)
        (
          Paired-updated (λ i. one_of i ids) outdated _ _ _ t.ledger t.outbox h.0
              (selected_alone outdated t.outbox h.1),
          Distinct-set_state outdated _ _ _ t.outbox h.1,
        )
  Change-Agreeing t t' (judged now row single l e o) h =
      let pending = is_pending_fact calendar host row.fact_id in
      rw (l, o)
        (
          Paired-updated (λ i. i == row.fact_id) pending _ _ _ t.ledger t.outbox h.0
              (judged_alone row.fact_id t.outbox h.1 single),
          Distinct-set_state pending _ _ _ t.outbox h.1,
        )

  -- In a store that any calls have built from nothing, the ledger's disposition of a fact is the
  -- state of its outbox row, and a fact is in both tables or in neither.
  pub disposition-after_calls :
      (cs : List WorkCall) (id : String)
      → Option.map
          (λ (l : LedgerRow). l.disposition)
          (get_ledger id (after_calls calendar host cs (nothing_yet calendar host)))
        ≡ Option.map
            (λ (s : ShadowRow). s.state)
            (get_outbox id (after_calls calendar host cs (nothing_yet calendar host)))
  unfolding get_ledger get_outbox
  disposition-after_calls cs id =
      let t = after_calls calendar host cs (nothing_yet calendar host) in
      Paired-first id t.ledger t.outbox
        (calls_keep calendar host Agreeing Change-Agreeing cs (nothing_yet calendar host)
          (tt, tt)).0
