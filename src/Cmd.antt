-- ===== src/Cmd.antt =====
-- cmd/mcpurl/main.go: flags, the target among them, the commands and their exit codes.
pub mod Settings
pub mod Flags
pub mod Exit
mod Tests
