-- ===== src/Portal.antt =====
-- Captive-portal launches (src/portal.rs and src/portal/ledger.rs): the intents, and the ledger
-- that fences their replay.
mod Examples
pub mod Intents
pub mod Ledger
pub use Intents.*
pub mod Policy
