-- ===== src/Main.antt =====
-- The class `MainWindow` of client/window.cpp, the window without a web view.
pub mod Preview
pub mod Selection
pub mod State
pub mod Shared
pub mod Shortcuts
pub mod Editor
pub mod Tabs
pub mod Rooms
pub mod Reconnect
pub mod Messages
pub mod Agreement
pub mod Steady
pub mod Tests
