-- ===== src/BrowserProxy.antt =====
-- runtime/browser_proxy.py: the loopback proxy in front of the authenticated upstream proxy.
pub mod Reader
pub mod Framing
pub mod Copy
pub mod Chunked
pub mod Accepted
pub mod Request
pub mod Handler
pub mod Relay
pub mod Ends
pub mod Terminates
pub mod Fields
pub mod Onward
pub mod Forwarded
pub mod Replies
pub mod Configuration
pub mod Meter
pub mod Slots
mod Tests
mod LimitTests
