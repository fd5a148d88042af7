-- ===== src/Work.antt =====
-- work_contract.py and work_store.py: facts about finished work, which become candidates only if
-- their session stays idle.
mod Contract
mod Mapping
mod Tables
mod Ledger
mod Changes
mod Steps
mod Decided
mod Roundtrip
mod Reread
mod Idle
mod Quieted
mod Agreeing
mod Lifecycle
mod Repeated
unfoldable pub use Contract.*
unfoldable pub use Mapping.*
unfoldable pub use Tables.*
unfoldable pub use Ledger.*
pub use Changes.*
pub use Steps.*
unfoldable pub use Decided.*
pub use Roundtrip.*
pub use Reread.*
pub use Idle.*
pub use Quieted.*
pub use Agreeing.*
pub use Lifecycle.*
pub use Repeated.*
