-- ===== src/Stream.antt =====
-- The stream of a run's events: the rows of the log in Stream/Rows, the object of the stream in
-- Stream/Hub, and proofs about it.
pub mod Rows
pub mod Hub
pub mod Reading
mod Steps
mod Order
mod Delivery
mod Reached
mod Replay
mod Heartbeat
mod Tests
mod Paging
mod Pages
