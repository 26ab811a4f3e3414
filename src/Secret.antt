-- ===== src/Secret.antt =====
-- The secret agent of src/daemon_secret.rs: which choices of retention a request allows, the registry of
-- the requests that wait for a password, and what an answer writes into the connection.
pub mod Policy
pub mod Registry
pub mod Agent
pub mod Once
pub mod Delivery
pub mod Prompts
pub mod Retirement
pub mod Response
mod Examples
