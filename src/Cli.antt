-- ===== src/Cli.antt =====
-- cli/: command-line options.
pub mod Args
mod Tests
