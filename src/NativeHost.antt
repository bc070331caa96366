-- ===== src/NativeHost.antt =====
-- runtime/native/host.py: the supervisor of the virtual machines on a host.
pub mod Snapshot
pub mod Storage
