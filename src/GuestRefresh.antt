-- ===== src/GuestRefresh.antt =====
-- runtime/native/refresh_guest_agent.py.
pub mod Refresh
mod Trusted
mod Tests
