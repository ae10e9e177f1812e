-- ===== src/Pipeline.antt =====
-- What the parts agree on: the names and messages that go from the operator over the registry and the
-- broker back to the operator, and on to the restore daemon.
pub mod Names
pub mod Succession
pub mod Views
pub mod Handover
pub mod Lifecycle
pub mod Entries
