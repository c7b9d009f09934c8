-- ===== src/Tracking.antt =====
-- The tracked changes of web/lib/tracked-changes.ts, between the baseline of an article and its body.
pub mod Parts
mod Replacement
mod Pieces
mod Inline
mod Rendering
mod Tests
