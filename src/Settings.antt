-- ===== src/Settings.antt =====
-- src/settings/: the settings form, the tail of the log file, and what the pages show.
pub mod Form
mod Tests
