-- ===== src/Atspi.antt =====
-- bridge/src/atspi.rs: the walk of the accessibility tree, the learned skips, the menu cache, and
-- the click path.
pub mod World
pub mod Fetch
pub mod Find
pub mod Matching
pub mod App
pub mod Skip
pub mod Cache
pub mod Menubar
pub mod A11y
pub mod Client
pub mod Tests
pub mod SessionTests
mod UnitTests
