-- ===== src/LiveCheckpoint.antt =====
-- runtime/native/live_checkpoint.py: checkpoints of a running guest.
pub mod Process
pub mod Journal
pub mod Sealing
pub mod Recovery
pub mod Attempt
pub mod Watchdog
pub mod Guest
mod Released
mod Fenced
mod Order
mod Exchanges
mod Views
mod Copies
mod Seals
mod Recovers
mod Consistent
mod Tests
mod RecoveryTests
