-- ===== src/Pairing.antt =====
-- Pairing with a device, of src/pairing.rs: addresses, the verification code and the start.
pub mod Address
pub mod Code
pub mod Start
