-- ===== src/Tests.antt =====
-- Concrete runs of the program, and the theorems at them.
mod Sample
mod Admitted
mod Deployed
mod Parsed
mod Interleaved
mod Consumed
mod Reconciled
mod Restored
mod Monitored
mod Ranked
mod Succeeded
mod Served
mod Copied
mod Applied
mod Followed
