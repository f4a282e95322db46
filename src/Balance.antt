-- ===== src/Balance.antt =====
-- The balancer of pkg/balance: a ring of hashed nodes, the state of each node, and the files that
-- are read most.
pub mod Model
pub mod Ring
pub mod Shards
pub mod Hot
pub mod Steps
pub mod Deadlock
mod Tests
