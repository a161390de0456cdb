-- ===== src/SshAgent.antt =====
-- src/bin/agentknock/ssh_agent.rs
pub mod Wire
pub mod Identity
pub mod Identities
pub mod Authentication
pub mod Connection
