-- ===== src/Store.antt =====
-- operation_store.py: the durable operations and the percept outbox, as two SQLite tables.
mod Table
mod Transition
mod Outbox
mod Reserve
mod Lookup
mod Soundness
mod Calls
mod Admitted
mod Progress
mod Idempotency
mod Purge
mod Retention
mod Recovery
mod Attempts
mod Reserved
mod Recovered
mod Interrupted
mod Recoverable
mod Payloads
unfoldable pub use Table.*
unfoldable pub use Transition.*
unfoldable pub use Outbox.*
unfoldable pub use Reserve.*
pub use Lookup.*
pub use Soundness.*
unfoldable pub use Calls.*
pub use Admitted.*
pub use Progress.*
pub use Idempotency.*
unfoldable pub use Purge.*
pub use Retention.*
unfoldable pub use Recovery.*
pub use Attempts.*
pub use Reserved.*
pub use Recovered.*
pub use Interrupted.*
pub use Recoverable.*
pub use Payloads.*
