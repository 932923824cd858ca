-- ===== src/Partition.antt =====
-- partition/: the graph of the accounts that trade with one another, and the constrained label
-- propagation algorithm that assigns them to shards.
pub mod Graph
pub mod Counting
pub mod Clpa
pub mod Labels
pub mod Directed
pub mod Weight
pub mod Recount
pub mod Moved
pub mod Fresh
pub mod Sized
pub mod Run
