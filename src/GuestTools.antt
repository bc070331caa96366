-- ===== src/GuestTools.antt =====
-- runtime/guest_tools.py: the tools that run in the guest for one private request at a time.
pub mod Tool
pub mod Installer
pub mod Jobs
pub mod Worker
pub mod Moves
pub mod Once
pub mod Validated
pub mod Cdp
pub mod Exact
pub mod Frames
pub mod Texts
pub mod Lives
pub mod Receives
pub mod Input
pub mod Inside
pub mod Software
pub mod Current
pub mod Checked
mod Tests
mod SoftwareTests
mod SocketTests
mod InputTests
