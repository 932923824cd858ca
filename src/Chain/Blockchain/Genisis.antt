-- ===== src/Chain/Blockchain/Genisis.antt =====
-- chain/blockchain.go: `NewBlockChain`, which starts a chain or reopens the one that is stored.
use utxo_block_emulator.Base.{
  [], Bool, false, Option, none, some, ◌≡◌, ◌≢◌, refl, Bytes, bytes_eq, eq_refl, if◌then◌else◌,
}
use utxo_block_emulator.Base.Outcome.{Outcome, ok, or_panic, ◌>>=◌}
use utxo_block_emulator.Core.Block.{Block, BlockHeader, new_block}
use utxo_block_emulator.Core.TxPool
use utxo_block_emulator.Chain.TxRoot.{get_tx_tree_root, get_utxo_tx_tree_root}
use utxo_block_emulator.Chain.Storage.{
  Storage, store_block, get_block, get_newest_block_hash, store_block_lem,
}
use utxo_block_emulator.Chain.Blockchain.{Env, ChainConfig, BlockChain, append_block}

module _ (E : Env) where
  abbrev pub genisis_header : (state_root tx_root : Bytes) → BlockHeader
  genisis_header state_root tx_root = record {
    parent_block_hash = [];
    state_root = state_root;
    tx_root = tx_root;
    number = 0;
    time = 0;
    miner = 0;
  }

  unfoldable pub new_genisis_block : (utxo : Bool) → Block
  unfolding get_tx_tree_root get_utxo_tx_tree_root new_block
  new_genisis_block utxo =
      let bh =
        if utxo
        then genisis_header [] (get_utxo_tx_tree_root E.hash_trie E.encode_utxo_tx [])
        else genisis_header E.empty_root (get_tx_tree_root E.hash_trie E.encode_tx []) in
      record (new_block bh [] []) { hash = E.hash_header bh }

  -- The chain over a storage whose top block is `curb`, before a block is added to it.
  abbrev pub chain_at :
      ChainConfig
      → E.accounts.Db
      → Option E.utxo_accounts.Db
      → (utxo_state_root : Bytes) → Storage E.buckets
      → Block
      → BlockChain E
  chain_at config d utxo_d utxo_state_root s curb = record {
    config = config;
    trie_db = d;
    utxo_trie_db = utxo_d;
    current_block = curb;
    storage = s;
    tx_pool = TxPool.new_tx_pool;
    utxo_tx_pool = TxPool.new_tx_pool;
    partition_map = [];
    utxo_state_root = utxo_state_root;
  }

  -- The block is stored and read back.
  unfoldable pub add_genisis_block :
      Block
      → ChainConfig
      → E.accounts.Db
      → E.utxo_accounts.Db
      → Storage E.buckets
      → Outcome (BlockChain E)
  unfolding store_block get_newest_block_hash get_block
  add_genisis_block gb config d utxo_d s = do
    s' ← store_block E.buckets gb s
    hash ← or_panic (get_newest_block_hash E.buckets s')
    curb ← or_panic (get_block E.buckets hash s')
    ok (
        chain_at config d (if config.utxo then some utxo_d else none)
          (if config.utxo then E.empty_root else []) s' curb)

  -- The trie of the top block has to be there, but not in UTXO mode.
  unfoldable pub reopen :
      ChainConfig → E.accounts.Db → Storage E.buckets → Block → Outcome (BlockChain E)
  reopen config d s curb = if config.utxo then ok (chain_at config d none [] s curb) else (do
    _ ← or_panic (E.accounts.open_at d curb.header.state_root)
    ok (chain_at config d none [] s curb))

  -- `d` and `utxo_d` are the trie database on the disk, as the mode reads it.
  unfoldable pub new_block_chain :
      ChainConfig → E.accounts.Db → E.utxo_accounts.Db → Storage E.buckets → Outcome (BlockChain E)
  unfolding new_genisis_block add_genisis_block reopen get_newest_block_hash get_block
  new_block_chain config d utxo_d s = elim (get_newest_block_hash E.buckets s) [
    | none ↦ add_genisis_block (new_genisis_block config.utxo) config d utxo_d s
    | some hash ↦ (do curb ← or_panic (get_block E.buckets hash s); reopen config d s curb)
  ]

  -- Outside UTXO mode, and whatever was stored before: a node that adds a block with a hash, stops, and is started again on
  -- the same storage, has that block as its top block, where the block's state root can be opened in
  -- the trie database; otherwise the start panics.
  pub restart_finds_newest :
      (b : Block) (bc : BlockChain E) (d : E.accounts.Db) (utxo_d : E.utxo_accounts.Db)
      → b.hash ≢ []
      → bc.config.utxo ≡ false
      → (bc' : BlockChain E) × (append_block E b bc ≡ ok bc')
        × (new_block_chain bc.config d utxo_d bc'.storage ≡ (
            or_panic (E.accounts.open_at d b.header.state_root)
            >>= (λ t. ok (chain_at bc.config d none [] bc'.storage b))))
  unfolding append_block new_block_chain reopen
  restart_finds_newest b bc d utxo_d h mode =
      let (s, made, newest, blocks, headers) = store_block_lem E.buckets b bc.storage h in
      (
        record bc { current_block = b; storage = s },
        rw made refl,
        rw (new_block_chain, newest, blocks, eq_refl b.hash, mode) refl,
      )
