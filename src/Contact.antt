-- ===== src/Contact.antt =====
-- contact_reconciliation.py, contact_store.py, contact_delivery.py and contact_service.py: contacts
-- are handed to Hermes at most once, and a lost outcome is settled from evidence only.
mod Evidence
mod Tables
mod Reconciler
mod Resolved
mod Reconciled
mod Requests
mod Sending
mod Setting
mod Checks
mod Service
mod Process
mod Startup
mod Recovering
mod Kept
mod Answers
mod Stored
mod Latest
mod Allowed
mod Ready
mod AtMostOnce
mod Requested
mod Runs
unfoldable pub use Evidence.*
unfoldable pub use Tables.*
unfoldable pub use Reconciler.*
pub use Resolved.*
pub use Reconciled.*
unfoldable pub use Requests.*
unfoldable pub use Sending.*
pub use Setting.*
unfoldable pub use Checks.*
unfoldable pub use Service.*
unfoldable pub use Process.*
unfoldable pub use Startup.*
pub use Recovering.*
unfoldable pub use Kept.*
pub use Answers.*
pub use Stored.*
pub use Latest.*
pub use Allowed.*
pub use Ready.*
pub use AtMostOnce.*
pub use Requested.*
unfoldable pub use Runs.*
