-- ===== src/Runtime.antt =====
-- runtime.py: the server.
pub mod State
pub mod Invoke
pub mod Respond
pub mod Messages
pub mod Actors
pub mod Tasks
pub mod Queues
pub mod Calm
pub mod Steps
pub mod Operations
pub mod Lifecycle
pub mod Settle
pub mod Stopping
pub mod Halting
pub mod Server
pub mod Clean
pub mod Orphans
pub mod Dispatch
pub mod Destroy
pub mod Phases
pub mod Halted
pub mod Owned
pub mod Serving
pub mod Departure
pub mod Replies
pub mod Silent
pub mod Replying
pub mod Answers
pub mod Tests
mod WorkTests
mod StopTests
mod ServeTests
