-- ===== src/Cmd.antt =====
-- cmd/mobydig/: the command, its terminal display, and the wiring of the packages.
pub mod Names
pub mod Groups
pub mod Render
pub mod Spinner
pub mod Flags
pub mod Shared
pub mod Report
pub mod System
pub mod Command
