-- ===== src/Scan.antt =====
-- Wi-Fi scanning (src/nm/scan_schedule.rs).
mod Examples
pub mod Scope
pub mod Schedule
pub mod RateLimit
