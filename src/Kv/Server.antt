-- ===== src/Kv/Server.antt =====
-- kv/server: the blind relay that holds a set of entries for each vault.
pub mod Maps
pub mod Quotas
pub mod Record
pub mod State
pub mod Lifecycle
pub mod Pushes
pub mod Replies
pub mod Register
pub mod Serve
pub mod Frames
pub mod Owner
pub mod Load
pub mod Laws
pub mod Moves
pub mod Chains
pub mod Steps
pub mod Accounts
pub mod Registry
pub mod Revoked
pub mod Waits
pub mod Stores
pub mod Sound
pub mod Outcomes
pub mod Answers
pub mod Endings
pub mod Restarts
pub mod Caps
pub mod Requests
pub mod Samples
mod Examples
mod Exchanges
mod LeftOver
