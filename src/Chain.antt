-- ===== src/Chain.antt =====
-- chain/: the blockchain of a node. `TrieDb` is what it asks of go-ethereum's trie, `Bucket` what it
-- asks of a bolt bucket.
pub mod TrieDb
pub mod StatusTrie
pub mod UtxoTx
pub mod Ledger
pub mod Bucket
pub mod UtxoSet
pub mod Storage
pub mod TxRoot
pub mod Blockchain
