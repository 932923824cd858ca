-- ===== src/Chain/Blockchain.antt =====
-- chain/blockchain.go: the blockchain object of a node: its blocks, its status trie and its pools.
pub mod Genisis
pub mod Replica
pub mod Accounts
use utxo_block_emulator.Base.{
  ℕ, suc, List, [], ◌∷◌, ◌++◌, Bool, true, false, ◌&&◌, not, Option, none, some, Bytes, bytes_eq,
  nat_eq, ◌==◌, if◌then◌else◌, add_u64,
}
use utxo_block_emulator.Base.Int.{ℤ}
use utxo_block_emulator.Base.GoMap
use utxo_block_emulator.Base.GoMap.{GoMap}
use utxo_block_emulator.Base.Outcome.{Outcome, ok, or_panic, ◌>>=◌}
use utxo_block_emulator.Core.Account.{AccountState, UtxoAccountState}
use utxo_block_emulator.Core.Block.{Block, BlockHeader, new_block}
use utxo_block_emulator.Core.Transaction.{Transaction, transaction_timed}
use utxo_block_emulator.Core.UtxoTransaction.{UtxoTransaction}
use utxo_block_emulator.Core.TxPool
use utxo_block_emulator.Core.TxPool.{TxPool}
use utxo_block_emulator.Chain.TrieDb.{TrieDb}
use utxo_block_emulator.Chain.TxRoot.{HashTrie, get_tx_tree_root, get_utxo_tx_tree_root}
use utxo_block_emulator.Chain.Storage.{
  Buckets, Storage, store_block, get_block, get_newest_block_hash,
}
use utxo_block_emulator.Chain.Ledger.{get_partition_map, update_status_trie}

-- What the chain takes from libraries: the two status tries, the buckets, the trie of a block's
-- transactions, the gob encodings, and SHA-256 of a header's.
pub record Env : Type 1 where
  pub accounts : TrieDb AccountState
  pub utxo_accounts : TrieDb UtxoAccountState
  pub buckets : Buckets
  pub hash_trie : HashTrie
  pub encode_tx : Transaction → Bytes
  pub encode_utxo_tx : UtxoTransaction → Bytes
  pub hash_header : BlockHeader → Bytes
  -- the root of the empty trie
  pub empty_root : Bytes

-- `params.ChainConfig` and the global parameters that the chain reads: `shard_num` is
-- `params.ShardNum`, `utxo` is `params.UTXO`.
pub record ChainConfig : Type 0 where
  pub node_id : ℕ
  pub shard_id : ℕ
  pub shard_nums : ℕ
  pub block_size : ℕ
  pub shard_num : ℕ
  pub utxo : Bool
  pub init_balance : ℤ

-- The source keeps one trie database, of accounts or of UTXO accounts by the mode; it is nil (`none`)
-- where a chain is reopened in UTXO mode.
pub record BlockChain (E : Env) : Type 0 where
  pub config : ChainConfig
  pub trie_db : E.accounts.Db
  pub utxo_trie_db : Option E.utxo_accounts.Db
  pub current_block : Block
  pub storage : Storage E.buckets
  pub tx_pool : TxPool Transaction
  pub utxo_tx_pool : TxPool UtxoTransaction
  pub partition_map : GoMap Bytes ℕ
  pub utxo_state_root : Bytes

module _ (E : Env) where
  unfoldable pub update_partition_map : Bytes → ℕ → BlockChain E → BlockChain E
  update_partition_map key val bc = record bc {
    partition_map = GoMap.insert key val bc.partition_map;
  }

  -- `Get_PartitionMap` on the chain's own map.
  abbrev pub shard_of_addr : BlockChain E → Bytes → Outcome ℕ
  shard_of_addr bc key = get_partition_map bc.config.shard_num bc.partition_map key

  unfoldable pub send_tx_to_pool : (ℕ → ℕ) → List Transaction → BlockChain E → BlockChain E
  send_tx_to_pool clock txs bc = record bc { tx_pool = TxPool.add_txs_to_pool clock txs bc.tx_pool }

  -- `GetUpdateStatusTrie` at the top block's root.
  unfoldable pub get_update_status_trie :
      List Transaction → BlockChain E → Outcome (Bytes × E.accounts.Db)
  unfolding update_status_trie
  get_update_status_trie txs bc =
      update_status_trie E.accounts (shard_of_addr bc) bc.config.init_balance bc.config.shard_id txs
        bc.trie_db bc.current_block.header.state_root

  abbrev pub next_header : (now : ℕ) (state_root tx_root : Bytes) → BlockChain E → BlockHeader
  next_header now state_root tx_root bc = record {
    parent_block_hash = bc.current_block.hash;
    state_root = state_root;
    tx_root = tx_root;
    number = add_u64 bc.current_block.header.number 1;
    time = now;
    miner = 0;
  }

  -- `b.Hash = b.Header.Hash()`
  abbrev pub with_hash : Block → Block
  with_hash b = record b { hash = E.hash_header b.header }

  unfoldable pub generate_utxo_block : (now : ℕ) → BlockChain E → Block × BlockChain E
  unfolding get_utxo_tx_tree_root new_block
  generate_utxo_block now bc =
      let (txs, pool) = TxPool.pack_txs bc.config.block_size bc.utxo_tx_pool in
      (
        with_hash (
            new_block
              (next_header now [] (get_utxo_tx_tree_root E.hash_trie E.encode_utxo_tx txs) bc) []
              txs),
        record bc { utxo_tx_pool = pool },
      )

  unfoldable pub generate_tx_block : (now : ℕ) → BlockChain E → Outcome (Block × BlockChain E)
  unfolding get_update_status_trie get_tx_tree_root new_block
  generate_tx_block now bc = do
    let (txs, pool) = TxPool.pack_txs bc.config.block_size bc.tx_pool
    (root, d) ← get_update_status_trie txs bc
    ok (
      with_hash (
          new_block (next_header now root (get_tx_tree_root E.hash_trie E.encode_tx txs) bc) txs
            []),
      record bc { tx_pool = pool; trie_db = d },
    )

  unfoldable pub generate_block : (now : ℕ) → BlockChain E → Outcome (Block × BlockChain E)
  unfolding generate_utxo_block generate_tx_block
  generate_block now bc =
      if bc.config.utxo then ok (generate_utxo_block now bc) else generate_tx_block now bc

  -- No error is true.
  unfoldable pub is_valid_block : Block → BlockChain E → Bool
  unfolding get_tx_tree_root
  is_valid_block b bc =
      b.header.parent_block_hash == bc.current_block.hash
      && get_tx_tree_root E.hash_trie E.encode_tx b.body == b.header.tx_root

  unfoldable pub is_valid_utxo_block : Block → BlockChain E → Bool
  unfolding get_utxo_tx_tree_root
  is_valid_utxo_block b bc =
      b.header.parent_block_hash == bc.current_block.hash
      && get_utxo_tx_tree_root E.hash_trie E.encode_utxo_tx b.utxo == b.header.tx_root

  -- `bc.CurrentBlock = b; bc.Storage.AddBlock(b)`
  unfoldable pub append_block : Block → BlockChain E → Outcome (BlockChain E)
  unfolding store_block
  append_block b bc = do
    s ← store_block E.buckets b bc.storage
    ok (record bc { current_block = b; storage = s })

  -- A block whose transactions this node has not handled is executed; the root that this gives is
  -- printed, and not compared with the header's.
  unfoldable pub execute_block : Block → BlockChain E → Outcome (BlockChain E)
  unfolding get_update_status_trie
  execute_block b bc =
      if not (b.header.miner == bc.config.node_id) && not bc.config.utxo
      then (do (root, d) ← get_update_status_trie b.body bc; ok (record bc { trie_db = d }))
      else ok bc

  unfoldable pub add_block : Block → BlockChain E → Outcome (BlockChain E)
  unfolding append_block execute_block
  add_block b bc =
      if b.header.number == add_u64 bc.current_block.header.number 1
      then (do bc' ← execute_block b bc; append_block b bc')
      else ok bc
