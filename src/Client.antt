-- ===== src/Client.antt =====
-- rpc_client.py: the client's connection, its proxies and its handles.
pub mod Catalog
pub mod State
pub mod Connection
pub mod Failing
pub mod Pending
pub mod Effects
pub mod Requests
pub mod Popping
pub mod Responses
pub mod Cases
pub mod Callers
pub mod Kept
pub mod Moves
pub mod Sections
pub mod Forgotten
pub mod Reader
pub mod Parts
pub mod Race
pub mod Address
pub mod Addresses
pub mod Handle
pub mod Process
pub mod Handles
pub mod Tests
mod CallerTests
