-- ===== src/CloneSanitizer.antt =====
-- runtime/native/sanitize_clone.py.
pub mod Sanitize
mod Resets
pub mod Cleared
mod Tests
