-- ===== src/Game/Logic.antt =====
-- game_logic.c: the rules of the game.
pub mod State
pub mod Setup
pub mod Score
pub mod Queue
pub mod Path
pub mod Player
pub mod Enemies
pub mod Rocks
pub mod Update
pub mod Tally
pub mod Play
pub mod Scenes
pub mod Moves
pub mod Dig
pub mod Attack
pub mod Fall
pub mod Ghost
