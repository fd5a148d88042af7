-- ===== src/Contract.antt =====
-- reliability_contract.py: the enumerations, retry policies, durable operations with the checks of
-- their constructors, and the guard on transitions.
mod Types
mod Policy
mod Validity
mod Transitions
mod WellFormed
mod Reach
mod Life
unfoldable pub use Types.*
unfoldable pub use Policy.*
unfoldable pub use Validity.*
unfoldable pub use Transitions.*
pub use WellFormed.*
pub use Reach.*
pub use Life.*
