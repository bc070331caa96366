-- ===== src/DurableExec.antt =====
-- runtime/durable_exec.py: commands that run at most once, with receipts that survive crashes.
pub mod Request
pub mod Receipt
pub mod Host
pub mod Store
pub mod Operations
pub mod Cancellation
pub mod Launch
pub mod History
pub mod Leads
pub mod Rules
pub mod Sections
pub mod AtMostOnce
pub mod CancelFence
mod Tests
