-- ===== src/Menu.antt =====
-- `MenuItem` of bridge/src/atspi.rs: the node of the menu tree that `active.json` carries.
pub mod Tree
pub mod Synthetic
pub mod Flatten
pub use Tree.*
mod Tests
