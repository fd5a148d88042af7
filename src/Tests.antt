-- ===== src/Tests.antt =====
-- Tests on concrete operations and stores, and each property applied at one of them.
pub mod Fixtures
pub mod Operations
pub mod Clock
pub mod Retries
pub mod Retentions
pub mod Deliveries
pub mod Reconciliations
pub mod Contacts
pub mod Works
