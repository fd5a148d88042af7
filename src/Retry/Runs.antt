-- ===== src/Retry/Runs.antt =====
-- Runs of the runtime: calls of the engine's methods and of the store's transitions, in any order
-- and with any outcome. The scheduling of a retry is the engine's alone.
use hermes_life_bridge.Prelude.{ℕ, ◌≡◌, Bool, Option, String}
use hermes_life_bridge.Errors.{Result}
use hermes_life_bridge.Calendar.{Calendar}
use hermes_life_bridge.Contract.{RetryClass, BridgeOperation}
use hermes_life_bridge.Store.{Database, Call, waiting, call}
use hermes_life_bridge.Retry.Registry.{Policies}
use hermes_life_bridge.Retry.Engine.{
  Probe, schedule_failed_safe, schedule_pending_failed_safe, release_due, begin_attempt,
  recover_interrupted_percept, recover_interrupted_cognition,
}
use hermes_life_bridge.Retry.Limits.{IsLimited}
use hermes_life_bridge.Retry.Bounded.{
  call-Keeps, schedule_failed_safe-Preserves, begin_attempt-Preserves,
}
use hermes_life_bridge.Retry.Sweeps.{
  schedule_pending-Keeps, release_due-Keeps, recover_interrupted_percept-Keeps,
  recover_interrupted_cognition-Keeps,
}

module _ (calendar : Calendar) (digest_head : String → ℕ) (policies : Policies) where
  -- One step of the runtime on the store.
  pub data Step : Database → Database → Type 0 where
    scheduling :
        (db : Database) (id now : String) (probe : Probe)
        → Step db (schedule_failed_safe calendar digest_head policies id now probe db).1
    scheduling_pending :
        (db : Database) (now : String) (kind : Option RetryClass) (limit : ℕ) (probe : Probe)
        → Step db
            (schedule_pending_failed_safe calendar digest_head policies now kind limit probe db).1
    releasing_due :
        (db : Database) (now : String) (kind : Option RetryClass) (limit : ℕ) (probe : Probe)
        → Step db (release_due calendar digest_head policies now kind limit probe db).1
    beginning :
        (db : Database) (id now : String) (probe : Probe)
        → Step db (begin_attempt calendar digest_head policies id now probe db).1
    recovering_percept :
        (db : Database) (now : String)
        → Step db (recover_interrupted_percept calendar digest_head policies now db).1
    recovering_cognition :
        (db : Database) (now : String) (accepted : BridgeOperation → Result Bool)
        → Step db (recover_interrupted_cognition calendar digest_head policies now accepted db).1
    moving :
        (db : Database) (k : Call) (id now : String)
        → ((at : String) → ¬ (k ≡ waiting at))
        → Step db (call k id now db).1

  -- Any number of steps.
  pub data Run : Database → Database → Type 0 where
    still : (db : Database) → Run db db
    then_step : {a b c : Database} → Step a b → Run b c → Run a c

  Step-IsLimited :
      {db db' : Database} → Step db db' → IsLimited policies db → IsLimited policies db'
  Step-IsLimited (scheduling db id now probe) l =
      (schedule_failed_safe-Preserves calendar digest_head policies id now probe).from db l
  Step-IsLimited (scheduling_pending db now kind limit probe) l =
      (schedule_pending-Keeps calendar digest_head policies now kind limit probe).from db l
  Step-IsLimited (releasing_due db now kind limit probe) l =
      (release_due-Keeps calendar digest_head policies now kind limit probe).from db l
  Step-IsLimited (beginning db id now probe) l =
      (begin_attempt-Preserves calendar digest_head policies id now probe).from db l
  Step-IsLimited (recovering_percept db now) l =
      (recover_interrupted_percept-Keeps calendar digest_head policies now).from db l
  Step-IsLimited (recovering_cognition db now accepted) l =
      (recover_interrupted_cognition-Keeps calendar digest_head policies now accepted).from db l
  Step-IsLimited (moving db k id now other) l = (call-Keeps policies k id now other).from db l

  -- Every run of the engine's methods and of the store's transitions other than schedule_retry, in
  -- any order and with any outcome, keeps a sound store in which no operation has more attempts
  -- than its kind's policy allows, with room for one more where it is prepared or waiting.
  pub Run-IsLimited :
      {db db' : Database} → Run db db' → IsLimited policies db → IsLimited policies db'
  Run-IsLimited (still db) l = l
  Run-IsLimited (then_step step rest) l = Run-IsLimited rest (Step-IsLimited step l)
