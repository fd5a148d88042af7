-- ===== src/Contact/Recovering.antt =====
-- What a startup does to the contacts that a restart interrupted, and what it counts.
use hermes_life_bridge.Prelude.{
  is_blank, ℕ, suc, ◌≢◌, ◌⊎◌, inl, inr, Bool-cases, eq_iff, ◌+◌, ◌≡◌, refl, sym, subst, ap, ◌∙◌,
  Bool, true, false, not, Option, none, some, List, [], ◌∷◌, String, arith, ◌==◌, not_equal,
  if◌then◌else◌, All, All-map, All-both, Distinct, count_where, length,
}
use hermes_life_bridge.Errors.{Result, ok, err, ok_inj}
use hermes_life_bridge.Exec.{Exec, pure, ◌>>=◌, ◌>>◌, continue, continue-eq-ok}
use hermes_life_bridge.Calendar.{Calendar, format_timestamp}
use hermes_life_bridge.Contract.{BridgeOperation, in_flight, contact, same_state}
use hermes_life_bridge.Store.{
  Database, Representation, IsSound, find_id, recover_interrupted_contact_operations, ids_of,
  interrupted, is_lost, is_stored_in, Confined, recover_interrupted_effect, interrupted-Distinct,
  interrupted_all, recover_interrupted_total,
}
use hermes_life_bridge.Contact.Reconciler.{EvidenceProbe, ContactReconciliationResult, reconcile}
use hermes_life_bridge.Contact.Reconciled.{Tried, left_unknown, reconcile-Tried}
use hermes_life_bridge.Contact.Setting.{
  ContactConfig, ContactWorld, ContactHost, in_operations, caught_any, on_stores,
}
use hermes_life_bridge.Contact.Startup.{
  RecoveryCounts, mark_recovered, count_result, note_failure, reconcile_each, recover_once,
  recover_startup,
}

abbrev database : ContactWorld → Database
database w = w.stores.operations

abbrev same_text : String → String → Bool
same_text a b = a == b

module _ (calendar : Calendar) (digest_head : String → ℕ) (rep : Representation)
    (host : ContactHost) (config : ContactConfig) (probe : EvidenceProbe) where
  -- Of the operations with these ids, which were lost, those that are lost still were counted as
  -- unknown and the others as resolved; none is in flight, and no other operation changed.
  record Tally (ids : List String) (db db' : Database) (c c' : RecoveryCounts) : Type 0 where
    confined : Confined ids db db'
    landed : All (λ i. is_stored_in in_flight (find_id i db'.operations) ≡ false) ids
    resolved_counted : c'.resolved ≡ c.resolved + count_where (λ i. not (is_lost i db')) ids
    unknown_counted : c'.unknown ≡ c.unknown + count_where (λ i. is_lost i db') ids
    retry_kept : c'.retry ≡ c.retry
    found_kept : c'.recovered_in_flight ≡ c.recovered_in_flight

  abbrev counted : Bool → RecoveryCounts → RecoveryCounts
  counted lost c =
      if lost then record c { unknown = c.unknown + 1 } else record c { resolved = c.resolved + 1 }

  -- One operation, then the others.
  Tally-cons :
      (id : String) (ids : List String) (lost : Bool) (db db1 db2 : Database)
      (c c2 : RecoveryCounts)
      → All (λ i. (i == id) ≡ false) ids
      → Tried id db db1 lost
      → Tally ids db1 db2 (counted lost c) c2
      → Tally (id ∷ ids) db db2 c c2
  unfolding count_where
  Tally-cons id ids lost db db1 db2 c c2 apart one rest =
      let kept : find_id id db2.operations ≡ find_id id db1.operations =
        rest.confined.others id apart in
      let same : is_lost id db2 ≡ lost = rw kept one.lost_or_not in
      record {
        confined = record {
          sound = rest.confined.sound;
          others = λ j other. rest.confined.others j other.1 ∙ one.confined.others j (other.0, tt);
        };
        landed = (rw kept one.landed, rest.landed);
        resolved_counted = rw same (add_resolved lost _ _ rest.resolved_counted);
        unknown_counted = rw same (add_unknown lost _ _ rest.unknown_counted);
        retry_kept = rest.retry_kept ∙ retry_of lost;
        found_kept = rest.found_kept ∙ found_of lost;
      }
    where
      add_resolved :
          (b : Bool) (n m : ℕ)
          → n ≡ (counted b c).resolved + m
          → n ≡ c.resolved + ((if not b then 1 else 0) + m)
      add_resolved true n m h = omega (arith, h)
      add_resolved false n m h = omega (arith, h)

      add_unknown :
          (b : Bool) (n m : ℕ)
          → n ≡ (counted b c).unknown + m
          → n ≡ c.unknown + ((if b then 1 else 0) + m)
      add_unknown true n m h = omega (arith, h)
      add_unknown false n m h = omega (arith, h)

      retry_of : (b : Bool) → (counted b c).retry ≡ c.retry
      retry_of true = refl
      retry_of false = refl

      found_of : (b : Bool) → (counted b c).recovered_in_flight ≡ c.recovered_in_flight
      found_of true = refl
      found_of false = refl

  -- After a try that was caught: its result is noted and counted, and the rest runs.
  caught_then :
      (r : Result ContactReconciliationResult) (w : ContactWorld) (c : RecoveryCounts)
      (rest : RecoveryCounts → Exec ContactWorld RecoveryCounts)
      → (w' : ContactWorld) × (w'.stores ≡ w.stores)
        × (((λ _. caught_any r w) >>= λ result.
                note_failure calendar digest_head rep host config probe result
                >> rest (count_result calendar digest_head rep host config probe result c))
              w
            ≡ rest (counted (left_unknown r) c) w')
  caught_then (ok r) w c rest = (w, refl, refl)
  caught_then (err e) w c rest = (_, refl, refl)

  -- The loop always returns.
  reconcile_each-Tally :
      (ops : List BridgeOperation) (c : RecoveryCounts) (w : ContactWorld)
      → IsSound (database w)
      → Distinct same_text (ids_of ops)
      → All (λ i. is_lost i (database w) ≡ true) (ids_of ops)
      → (c' : RecoveryCounts) × (w' : ContactWorld) × (reconcile_each calendar digest_head rep host
            config probe ops c w
          ≡ (ok c', w'))
        × Tally (ids_of ops) (database w) (database w') c c'
  unfolding reconcile_each count_where
  reconcile_each-Tally [] c w s d lost = (
    c,
    w,
    refl,
    record {
      confined = record { sound = s; others = λ j _. refl };
      landed = tt;
      resolved_counted = omega arith;
      unknown_counted = omega arith;
      retry_kept = refl;
      found_kept = refl;
    },
  )
  reconcile_each-Tally (op ∷ ops) c w s d lost =
      let id = op.operation_id in
      let time = format_timestamp calendar (host.clock w.ticks) in
      let now = format_timestamp calendar (host.clock (w.ticks + 1)) in
      let w2 : ContactWorld = record w { ticks = w.ticks + 1 + 1 } in
      let m = on_stores (reconcile rep.sanitize probe now id time) in
      let (w', kept, next) =
        caught_then (m w2).0 (m w2).1 c
          (reconcile_each calendar digest_head rep host config probe ops) in
      let one : Tried id (database w) (database w') (left_unknown (m w2).0) =
        subst (λ x. Tried id (database w) x.operations (left_unknown (m w2).0)) (sym kept)
          (reconcile-Tried rep.sanitize probe now id time w.stores s lost.0) in
      let still =
        All-map {P = λ i. ((i == id) ≡ false) × (is_lost i (database w) ≡ true)} (ids_of ops)
          (λ i h. rw (one.confined.others i (not_equal id i h.0, tt)) h.1)
          (All-both (λ i. (i == id) ≡ false) (λ i. is_lost i (database w) ≡ true) (ids_of ops) d.0
            lost.1) in
      let (c', w'', returned, tally) =
        reconcile_each-Tally ops (counted (left_unknown (m w2).0) c) w' one.confined.sound d.1
          still in
      (
        c',
        w'',
        next ∙ returned,
        Tally-cons id (ids_of ops) (left_unknown (m w2).0) (database w) (database w') (database w'')
            c c' d.0 one tally,
      )

  all_or :
      (P : String → Type 0) (id : String) (ids : List String)
      → All P ids
      → All (λ i. (i == id) ≡ false) ids ⊎ P id
  all_or P id [] h = inl tt
  all_or P id (i ∷ ids) h = elim (Bool-cases (i == id)) [
    | inl same ↦ inr (subst P ((eq_iff i id).0 same) h.0)
    | inr other ↦ elim (all_or P id ids h.1) [ inl apart ↦ inl (other, apart) | inr p ↦ inr p ]
  ]

  -- What a startup leaves, and what it counted, by the operations that were interrupted.
  pub record Recovered (db db' : Database) (c : RecoveryCounts) : Type 0 where
    pub confined : Confined (interrupted db) db db'
    pub none_in_flight :
        (id : String) (op : BridgeOperation)
        → find_id id db'.operations ≡ some op
        → op.kind ≡ contact
        → op.state ≢ in_flight
    pub all_found : c.recovered_in_flight ≡ length (interrupted db)
    pub resolved_counted : c.resolved ≡ count_where (λ i. not (is_lost i db')) (interrupted db)
    pub unknown_counted : c.unknown ≡ count_where (λ i. is_lost i db') (interrupted db)
    pub none_retried : c.retry ≡ 0

  length-ids_of : (ops : List BridgeOperation) → length ops ≡ length (ids_of ops)
  length-ids_of [] = refl
  length-ids_of (op ∷ ops) = ap suc (length-ids_of ops)

  stored_in_flight :
      (o : Option BridgeOperation) {op : BridgeOperation}
      → o ≡ some op
      → op.state ≡ in_flight
      → is_stored_in in_flight o ≡ false
      → ⊥
  unfolding same_state
  stored_in_flight none e u h = cc
  stored_in_flight (some o) e u h = ground arith

  tallied-Recovered :
      (db db1 db2 : Database) (c : RecoveryCounts)
      → Confined (interrupted db) db db1
      → Tally
          (interrupted db)
          db1
          db2
          (record {
            recovered_in_flight = length (interrupted db);
            resolved = 0;
            unknown = 0;
            retry = 0;
          })
          c
      → Recovered db db2 c
  tallied-Recovered db db1 db2 c first tally =
      let others : (j : String)
          → All (λ i. (i == j) ≡ false) (interrupted db)
          → find_id j db2.operations ≡ find_id j db.operations =
        λ j apart. tally.confined.others j apart ∙ first.others j apart in
      record {
        confined = record { sound = tally.confined.sound; others = others };
        none_in_flight = λ id op found k u.
            elim (all_or (λ i. is_stored_in in_flight (find_id i db2.operations) ≡ false) id
              (interrupted db) tally.landed) [
                | inl apart ↦ interrupted_all id op db (sym (others id apart) ∙ found) k u apart
                | inr landed ↦ stored_in_flight (find_id id db2.operations) found u landed
              ];
        all_found = tally.found_kept;
        resolved_counted = omega (arith, tally.resolved_counted);
        unknown_counted = omega (arith, tally.unknown_counted);
        none_retried = tally.retry_kept;
      }

  recover_once-Recovered :
      (w : ContactWorld)
      → IsSound (database w)
      → {c : RecoveryCounts} {w' : ContactWorld}
      → recover_once calendar digest_head rep host config probe w ≡ (ok c, w')
      → Recovered (database w) (database w') c
  recover_once-Recovered w s {c} {w'} h =
      let at = format_timestamp calendar (host.clock w.ticks) in
      let w1 : ContactWorld = record w { ticks = w.ticks + 1 } in
      let m = in_operations (recover_interrupted_contact_operations at) in
      let (ops, recovered, h1) = continue-eq-ok (m w1).0 _ (m w1).1 h in
      let (ids, confined, lost) =
        recover_interrupted_effect at (database w) s
          (pair_path (recover_interrupted_contact_operations at (database w)) recovered) in
      let start : RecoveryCounts = record {
        recovered_in_flight = length ops;
        resolved = 0;
        unknown = 0;
        retry = 0;
      } in
      let (c2, w2, returned, tally) =
        reconcile_each-Tally ops start (m w1).1 confined.sound
          (subst (Distinct same_text) (sym ids) (interrupted-Distinct (database w) s))
          (subst (All (λ i. is_lost i (database (m w1).1) ≡ true)) (sym ids) lost) in
      let ended : ◌≡◌ {A = Result RecoveryCounts × ContactWorld}
          (ok c2, record w2 { startup_recovered = true }) (ok c, w') =
        sym (
          ap
            (λ (x : Result RecoveryCounts × ContactWorld).
              continue x.0 (λ counts. mark_recovered >> pure counts) x.1)
            returned)
        ∙ h1 in
      let total =
        subst
          (λ (l : List String).
            Tally l (database (m w1).1) (database w2)
              (record start { recovered_in_flight = length l }) c2)
          ids
          (subst
            (λ n.
              Tally (ids_of ops) (database (m w1).1) (database w2)
                (record start { recovered_in_flight = n }) c2)
            (length-ids_of ops) tally) in
      as_ended c2 (record w2 { startup_recovered = true })
        (tallied-Recovered (database w) (database (m w1).1) (database w2) c2 confined total) ended
    where
      pair_path : {A S : Type 0} (r : Result A × S) {a : A} → r.0 ≡ ok a → r ≡ (ok a, r.1)
      pair_path (r, s) e = ap (λ x. (x, s)) e

      as_ended :
          (c2 : RecoveryCounts) (w2 : ContactWorld)
          → Recovered (database w) (database w2) c2
          → ◌≡◌ {A = Result RecoveryCounts × ContactWorld} (ok c2, w2) (ok c, w')
          → Recovered (database w) (database w') c
      as_ended c2 w2 r e =
          subst (λ (x : ContactWorld). Recovered (database w) (database x) c) (ap (λ x. x.1) e)
            (subst (λ (x : RecoveryCounts). Recovered (database w) (database w2) x)
              (ok_inj (ap (λ x. x.0) e)) r)

  recover_once_returns :
      (w : ContactWorld)
      → IsSound (database w)
      → is_blank (format_timestamp calendar (host.clock w.ticks)) ≡ false
      → (c : RecoveryCounts) × (w' : ContactWorld) × (recover_once calendar digest_head rep host
            config probe w
          ≡ (ok c, w'))
  recover_once_returns w s given =
      let at = format_timestamp calendar (host.clock w.ticks) in
      let (r, returned) = recover_interrupted_total at given (database w) s in
      let (ids, confined, lost) = recover_interrupted_effect at (database w) s returned in
      let w1 : ContactWorld = record w {
        stores = record w.stores { operations = r.1 };
        ticks = w.ticks + 1;
      } in
      let start : RecoveryCounts = record {
        recovered_in_flight = length r.0;
        resolved = 0;
        unknown = 0;
        retry = 0;
      } in
      let (c, w2, looped, _) =
        reconcile_each-Tally r.0 start w1 confined.sound
          (subst (Distinct same_text) (sym ids) (interrupted-Distinct (database w) s))
          (subst (All (λ i. is_lost i (database w1) ≡ true)) (sym ids) lost) in
      (
        c,
        record w2 { startup_recovered = true },
        ap (λ (x : Result (List BridgeOperation) × Database). resumed w x) returned
            ∙ ap
                (λ (x : Result RecoveryCounts × ContactWorld).
                  continue x.0 (λ counts. mark_recovered >> pure counts) x.1)
                looped,
      )
    where
      resumed :
          ContactWorld
          → Result (List BridgeOperation) × Database
          → Result RecoveryCounts × ContactWorld
      resumed w x =
          continue x.0
            (λ ops.
              reconcile_each calendar digest_head rep host config probe ops
                (record { recovered_in_flight = length ops; resolved = 0; unknown = 0; retry = 0 })
              >>= λ counts. mark_recovered >> pure counts)
            (record w { stores = record w.stores { operations = x.1 }; ticks = w.ticks + 1 })

  -- A startup that finds a sound store, with a non-blank time and for the first time in the
  -- process, returns. It found the contacts in flight, no contact is in flight afterwards, only
  -- those operations have changed, those of them that are lost were counted as unknown and the
  -- others as resolved, and no retry was counted.
  pub recover_startup-Recovered :
      (w : ContactWorld)
      → IsSound (database w)
      → w.startup_recovered ≡ false
      → is_blank (format_timestamp calendar (host.clock w.ticks)) ≡ false
      → (c : RecoveryCounts) × (w' : ContactWorld) × (recover_startup calendar digest_head rep host
            config probe w
          ≡ (ok c, w'))
        × Recovered (database w) (database w') c
  unfolding recover_startup
  recover_startup-Recovered w s first_time given =
      let (c, w', returned) = recover_once_returns w s given in
      (
        c,
        w',
        otherwise _ w.startup_recovered first_time returned,
        recover_once-Recovered w s returned,
      )
    where
      otherwise :
          {A : Type 0} {y z : A} (x : A) (b : Bool) → b ≡ false → y ≡ z → (if b then x else y) ≡ z
      otherwise x true e h = absurd cc
      otherwise x false e h = h
