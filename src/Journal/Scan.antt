-- ===== src/Journal/Scan.antt =====
-- What `scan` makes of a journal: proofs. `Rounds` has one round of its loop, `Whole` the journals that
-- were written, intact, cut short or damaged, and `Any` every buffer.
pub mod Rounds
pub mod Pieces
pub mod Whole
pub mod Any
