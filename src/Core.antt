-- ===== src/Core.antt =====
-- core/: accounts, transactions, blocks and the two transaction pools.
pub mod Account
pub mod Transaction
pub mod UtxoTransaction
pub mod Block
pub mod TxPool
pub mod UtxoTxPool
