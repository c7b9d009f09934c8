-- ===== src/Pipeline.antt =====
-- deploy/cloudflare-workers/src/workflows/production.ts: one run of the production workflow.
pub mod StepNames
pub mod World
pub mod Platform
pub mod Flow
pub mod Strategy
pub mod Drafts
pub mod Production
pub mod Publishing
pub mod Main
pub mod Bounds
pub mod Frames
pub mod Outcomes
