-- ===== src/Cli.antt =====
-- The command line of src/bin/agentknock/main.rs.
pub mod Names
pub mod Options
pub mod Operation
