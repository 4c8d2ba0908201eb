-- ===== src/Ui.antt =====
-- internal/ui: the parts of the terminal interface that hold state of their own.
pub mod Logs
pub mod Layout
pub mod Table
pub mod Cmdline
mod Tests
