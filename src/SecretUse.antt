-- ===== src/SecretUse.antt =====
-- Requests to use secrets, of src/secret_use.rs: the options of a request, the message that they
-- are sent in, and the output made of the approved secrets.
pub mod Options
pub mod Approved
