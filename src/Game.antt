-- ===== src/Game.antt =====
-- The user program game.c and its parts: input, map, entities, level data and rules.
pub mod Types
pub mod Input
pub mod Map
pub mod Entities
pub mod Data
pub mod Logic
pub mod Loop
