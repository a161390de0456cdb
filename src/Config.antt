-- ===== src/Config.antt =====
-- The pairing file of src/config.rs: what its operations read and what they leave, whatever system
-- calls fail.
pub mod Reads
pub mod Changes
pub mod Lifecycle
pub mod Steps
pub mod Transitions
pub mod Success
pub mod Readers
