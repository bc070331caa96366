-- ===== src/NativeHost/Snapshot.antt =====
-- runtime/native/host.py: the folder of one snapshot, and the operations that import an artifact into
-- it chunk by chunk, seal it, read it back and delete it.
pub mod Manifest
pub mod Transfer
pub mod Whole
pub mod Sound
pub mod Runs
pub mod Retries
pub mod ReadBack
mod Tests
