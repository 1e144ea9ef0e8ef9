-- ===== src/Agreement.antt =====
-- The two ends of the protocol: the messages of rpc_client.py are those that runtime.py takes.
pub mod Requests
pub mod Handshake
pub mod Responses
pub mod Answering
pub mod Local
pub mod Call
pub mod Delivery
pub mod Sending
pub mod Connecting
mod Wire
mod Tests
mod CallTests
