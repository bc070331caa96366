-- ===== src/NetworkEgress.antt =====
-- runtime/network_egress.py.
pub mod Probe
mod Verified
mod Tests
