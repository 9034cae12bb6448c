-- ===== src/App.antt =====
-- src/main.rs and src/app/: the application around the proxy.
pub mod Icon
pub mod Bear
pub mod Tray
pub mod Controller
pub mod View
pub mod Launch
pub mod Window
