-- ===== src/Gates.antt =====
-- deploy/cloudflare-workers/src/routes/runs.ts: the decisions at the two gates of a run, and its restart.
pub mod Actor
pub mod Instances
pub mod Resume
pub mod Confirm
pub mod Decide
pub mod Restart
