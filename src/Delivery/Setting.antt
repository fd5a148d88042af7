-- ===== src/Delivery/Setting.antt =====
-- What PerceptReliabilityExecutor acts on: its store, the clock and the socket.
use hermes_life_bridge.Prelude.{ℕ, ◌+◌, Bool, Option, List, ◌∷◌, String, length}
use hermes_life_bridge.Errors.{ok}
use hermes_life_bridge.Exec.{Exec}
use hermes_life_bridge.Store.{Database, PerceptEvent}

-- RuntimeReceipt
pub record RuntimeReceipt : Type 0 where
  pub accepted : Bool
  pub duplicate : Option Bool
  pub persisted : Option Bool
  pub state_sequence : Option ℕ
  pub state_hash : Option String
  pub decision_outcome : Option String
  pub error : Option String

-- The store, how often the clock was read, and the events that were handed to the socket, the last
-- one first.
pub record World : Type 0 where
  pub store : Database
  pub ticks : ℕ
  pub sent : List PerceptEvent

-- What is outside: the n-th reading of the clock as text, what comes of the n-th sending (nothing
-- where it raises), SHA-256 in hexadecimal, and UUID 5 in the bridge's namespace.
pub record Host : Type 0 where
  pub clock : ℕ → String
  pub reply : ℕ → PerceptEvent → Option RuntimeReceipt
  pub sha256 : String → String
  pub uuid5 : String → String

abbrev pub on_store : {A : Type 0} → Exec Database A → Exec World A
on_store m w = ((m w.store).0, record w { store = (m w.store).1 })

module _ (host : Host) where
  -- `_now`
  abbrev pub now : Exec World String
  now w = (ok (host.clock w.ticks), record w { ticks = w.ticks + 1 })

  -- `transport.send_percept`
  abbrev pub send_percept : PerceptEvent → Exec World (Option RuntimeReceipt)
  send_percept event w = (ok (host.reply (length w.sent) event), record w { sent = event ∷ w.sent })
