-- ===== src/Compare/Moves.antt =====
-- logic.go: the pairing of missing and new files of the same hash into moves.
pub mod Index
pub mod Steps
pub mod Complete
pub mod Sound
pub mod Counts
