-- ===== src/Retry.antt =====
-- retry_engine.py: the default policies, the backoff, and the engine over the store.
mod Delay
mod Registry
mod Types
mod Due
mod Engine
mod Limits
mod Bounded
mod Sweeps
mod Backoff
mod Runs
mod Started
unfoldable pub use Delay.*
unfoldable pub use Registry.*
pub use Types.*
unfoldable pub use Due.*
unfoldable pub use Engine.*
pub use Limits.*
pub use Bounded.*
pub use Sweeps.*
pub use Backoff.*
pub use Runs.*
pub use Started.*
