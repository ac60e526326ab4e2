-- ===== src/Osmosis.antt =====
-- internal/osmosis: the client of the full node and the publisher.
pub mod Messages
pub mod Mempool
pub mod Queries
pub mod EventBuffer
pub mod PoolsOfInterest
pub mod Denoms
pub mod Publisher
