-- ===== src/Retry/Limits.antt =====
-- The bound on attempts as an invariant of the store, kept by the store's methods.
use hermes_life_bridge.Prelude.{
  ℕ, ◌≤◌, ◌<◌, ◌≡◌, ◌⊎◌, inl, inr, refl, sym, subst, some, String, arith, ◌==◌, Bool-cases,
}
use hermes_life_bridge.Errors.{Result, ok, err}
use hermes_life_bridge.Contract.{prepared, retry_wait, BridgeOperation}
use hermes_life_bridge.Store.{
  Database, find_id, IsSound, Moved, Call, starting, completing, releasing, exhausting, failing,
  losing, waiting, call, Admits, outcome_of, call_effect, call_rollback,
}
use hermes_life_bridge.Retry.Registry.{Policies, policy_for}

module _ (policies : Policies) where
  abbrev limit_of : BridgeOperation → ℕ
  limit_of op = (policy_for policies op.kind).max_attempts

  -- No more attempts than the policy allows, and room for one more where another may start.
  pub record IsWithin (op : BridgeOperation) : Type 0 where
    pub bounded : op.attempt ≤ (policy_for policies op.kind).max_attempts
    pub room :
        (op.state ≡ prepared) ⊎ (op.state ≡ retry_wait)
        → op.attempt < (policy_for policies op.kind).max_attempts

  pub record IsLimited (db : Database) : Type 0 where
    pub sound : IsSound db
    pub within :
        (id : String) (op : BridgeOperation) → find_id id db.operations ≡ some op → IsWithin op

  -- The effect of a call on the bound, where a retry is scheduled only with room left.
  outcome_of-IsWithin :
      (k : Call) (now : String) (c : BridgeOperation)
      → Admits k c
      → ((at : String) → k ≡ waiting at → c.attempt < limit_of c)
      → IsWithin c
      → IsWithin (outcome_of k now c)
  outcome_of-IsWithin starting now c a h w = record {
    bounded = omega (arith, w.room (inl a));
    room = λ e. ground arith;
  }
  outcome_of-IsWithin completing now c a h w = record {
    bounded = w.bounded;
    room = λ e. ground arith;
  }
  outcome_of-IsWithin (failing code) now c a h w = record {
    bounded = w.bounded;
    room = λ e. ground arith;
  }
  outcome_of-IsWithin (losing code) now c a h w = record {
    bounded = w.bounded;
    room = λ e. ground arith;
  }
  outcome_of-IsWithin (waiting at) now c a h w = record {
    bounded = w.bounded;
    room = λ e. h at refl;
  }
  outcome_of-IsWithin releasing now c a h w = record {
    bounded = w.bounded;
    room = λ e. w.room (inr a);
  }
  outcome_of-IsWithin exhausting now c a h w = record {
    bounded = w.bounded;
    room = λ e. ground arith;
  }

  module _ (db : Database) (limited : IsLimited db) (k : Call) (id now : String)
      (may_wait : (at : String) (c : BridgeOperation)
        → k ≡ waiting at
        → find_id id db.operations ≡ some c
        → c.attempt < limit_of c) where
    moved_within :
        {db' : Database} {c c' : BridgeOperation}
        → Moved db db' id c c'
        → IsWithin c'
        → IsLimited db'
    moved_within {db'} {c} {c'} m w = record {
      sound = m.still_sound;
      within = λ j op found. elim (Bool-cases (id == j)) [
        | inl same ↦
            let e : some c' ≡ some op = rw (m.rows j, same) at found in subst IsWithin (cc) w
        | inr other ↦ limited.within j op (rw (m.rows j, other) at found)
      ];
    }

    call_cases :
        (r : Result BridgeOperation) (db' : Database) → call k id now db ≡ (r, db') → IsLimited db'
    call_cases (ok c') db' h =
        let (c, a, e, m) = call_effect db limited.sound k id now h in
        moved_within m (
          subst IsWithin (sym e) (
            outcome_of-IsWithin k now c a (λ at p. may_wait at c p m.was)
              (limited.within id c m.was)))
    call_cases (err e) db' h =
        subst IsLimited (sym (call_rollback db limited.sound k id now h)) limited

    pub call-IsLimited : IsLimited (call k id now db).1
    call-IsLimited = call_cases (call k id now db).0 (call k id now db).1 refl
