-- ===== src/Auth.antt =====
-- deploy/cloudflare-workers/src/auth/authz.ts: roles, the access to routes, and the
-- routes of routes/admin.ts that change users.
pub mod Roles
pub mod Access
mod Directory
mod Gotrue
mod Requests
mod Admin
mod Keys
mod Table
mod Provider
mod Contracts
mod Served
mod Ended
mod Deleted
mod Examples
mod Tests
