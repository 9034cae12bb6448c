-- ===== src/Logs.antt =====
-- The log: src/app/logging.rs writes it, src/settings/log_tail.rs follows it.
pub mod Lines
pub mod Tail
pub mod Writer
pub mod Page
pub mod Watch
mod Tests
