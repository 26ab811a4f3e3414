-- ===== src/Runtime.antt =====
-- The daemon runtime (src/daemon_runtime.rs and the modules below it).
mod Examples
pub mod Admission
pub mod Feedback
pub mod Interfaces
pub mod Sample
pub mod Subscriptions
pub mod Tasks
