-- ===== src/Pbft/ClpaBroker.antt =====
-- consensus_shard/pbft_all: the modules for the CLPA algorithm with brokers. They share the data of Pbft/Clpa, and
-- most of their code is that of its modules.
pub mod Transfer
pub mod Inside
pub mod Outside
pub mod Moves
