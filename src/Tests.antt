-- ===== src/Tests.antt =====
-- The theorems at concrete data.
pub mod Amounts
pub mod Controls
pub mod Records
pub mod Flow
pub mod Decisions
pub mod Live
pub mod Desk
