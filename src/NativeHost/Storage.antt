-- ===== src/NativeHost/Storage.antt =====
-- runtime/native/host.py: the durable receipts of the storage operations and the worker that runs them.
pub mod Journal
pub mod Worker
pub mod History
pub mod Evolution
pub mod Admission
pub mod Single
pub mod Safety
pub mod Replies
mod Tests
