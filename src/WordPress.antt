-- ===== src/WordPress.antt =====
-- The client of deploy/cloudflare-workers/src/wordpress/client.ts: the publish request with its retries.
pub mod Responses
pub mod Upsert
mod Once
mod Tests
