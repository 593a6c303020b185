-- ===== src/Desktop.antt =====
-- bridge/src/desktop.rs: the menu that is made of an application's `.desktop` entry.
pub mod Entry
pub mod Exec
pub mod Resolve
pub mod Fallback
pub mod Tests
mod UnitTests
