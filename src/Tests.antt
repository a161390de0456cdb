-- ===== src/Tests.antt =====
-- The theorems at concrete data, and runs of the definitions.
pub mod SshAgent
pub mod Requests
pub mod Relay
pub mod Session
pub mod Exchange
pub mod Connection
pub mod Pairing
pub mod Config
pub mod GitRepository
pub mod Executable
pub mod InvocationService
