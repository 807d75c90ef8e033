-- ===== src/Journal.antt =====
-- crates/plugmem-core/src/journal.rs: the framing of journal records, the operations that they
-- carry, and the scan of a journal. `Fields`, `Ops` and `Frames` hold the functions; the other
-- modules hold the proofs.
pub mod Fields
pub mod Ops
pub mod Frames
pub mod Scan
pub mod RoundTrip
pub mod Recovery
mod Tests
