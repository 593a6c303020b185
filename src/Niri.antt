-- ===== src/Niri.antt =====
-- bridge/src/niri.rs: focus detection, the event loop, and the reconnects.
pub mod Detect
pub mod Stream
pub mod Reconnect
pub mod Tests
