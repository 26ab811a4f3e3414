-- ===== src/Activation.antt =====
-- The activation of a connection: the credentials' stop of src/activation.rs and the wait of
-- src/connect_wait.rs.
mod Examples
pub mod Credentials
pub mod Registry
pub mod Wait
