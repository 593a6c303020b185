-- ===== src/Active.antt =====
-- bridge/src/active.rs: the snapshot of the focused window, and the debounce of focus changes.
pub mod Snapshot
pub mod Debounce
mod Tests
