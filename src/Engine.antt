-- ===== src/Engine.antt =====
-- engine/engine.c
pub mod Stream
pub mod World
pub mod Generate
pub mod Control
mod Tests
