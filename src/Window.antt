-- ===== src/Window.antt =====
-- The shared document in the window: the sync part of the class `WebViewWindow` of
-- client/webview_window.cpp.
pub mod Replica
pub mod Editor
pub mod Convergence
pub mod Typing
pub mod Refusal
pub mod Concurrency
pub mod Chunks
pub mod Reassembly
pub mod Page
pub mod Tests
