-- ===== src/Refresh.antt =====
-- The refresh scan of deploy/cloudflare-workers/src/refresh and workflows/refresh_scan.ts.
pub mod Scoring
pub mod Store
pub mod Scan
pub mod Select
pub mod Tick
pub mod Route
mod Contracts
mod Budget
mod Branches
mod Opened
mod Agreement
mod Urgency
mod Places
mod Queue
mod Answers
mod Tests
