-- ===== src/Examples.antt =====
-- Tests on concrete inputs, and each theorem with hypotheses or parameters at an input where it applies.
pub mod Pools
pub mod Utxo
pub mod Chains
pub mod Consensus
pub mod Hotstuff
pub mod Partition
pub mod Clpa
pub mod Supervisor
