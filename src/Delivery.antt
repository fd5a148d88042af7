-- ===== src/Delivery.antt =====
-- percept_delivery.py: the delivery of Percepts to Life Runtime from the durable outbox.
mod Setting
mod Executor
mod Pump
mod Limits
mod Sweeping
unfoldable pub use Setting.*
unfoldable pub use Executor.*
unfoldable pub use Pump.*
pub use Limits.*
pub use Sweeping.*
