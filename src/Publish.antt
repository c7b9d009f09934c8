-- ===== src/Publish.antt =====
-- The rules that decide where, under which id and with which status an article is published.
pub mod Failure
pub mod Guards
pub mod Pin
pub mod Slug
pub mod Target
