-- ===== src/Core.antt =====
-- core/
pub mod Types
pub mod Sampling
pub mod Content
mod Tests
