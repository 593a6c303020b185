-- ===== src/Click.antt =====
-- The short-lived subcommands of bridge/src/main.rs, which act on a click, and what they call.
pub mod Effect
pub mod Launch
pub mod Action
pub mod Command
pub mod Menus
pub mod Rows
pub mod Installed
pub mod Walked
pub mod Published
pub mod MenuTests
pub mod InstalledTests
pub mod Tests
