-- ===== src/Proxy.antt =====
-- bridge/src/proxy.rs: what is written for the widget, and the loop that resolves the menu.
pub mod Write
pub mod Place
pub mod Loop
pub mod Tests
pub mod ShownTests
