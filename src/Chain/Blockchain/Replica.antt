-- ===== src/Chain/Blockchain/Replica.antt =====
-- chain/blockchain.go: the nodes of a shard keep the same status trie. The main node (node 0, the miner
-- that `GenerateBlock` writes) handles the transactions as it makes the block, the others as they add it.
use utxo_block_emulator.Base.{
  ℕ, List, [], Bool, true, false, ◌≡◌, ◌≢◌, refl, sym, ap, subst, ◌∙◌, Bytes, bytes_eq, nat_eq,
  ◌==◌, eq_refl, eq_iff, add_u64, arith, if◌then◌else◌, ◌&&◌, not,
}
use utxo_block_emulator.Base.Outcome.{Outcome, ok, ok-injective, ◌>>=◌, >>=-eq-ok}
use utxo_block_emulator.Core.Block.{Block, BlockHeader, new_block}
use utxo_block_emulator.Core.Transaction.{Transaction}
use utxo_block_emulator.Core.TxPool
use utxo_block_emulator.Chain.TxRoot.{get_tx_tree_root}
use utxo_block_emulator.Chain.Storage.{store_block_lem}
use utxo_block_emulator.Chain.Blockchain.{
  Env, BlockChain, with_hash, next_header, get_update_status_trie, generate_utxo_block,
  generate_tx_block, generate_block, is_valid_block, append_block, execute_block, add_block,
}

module _ (E : Env) where
  -- What the nodes of a shard agree on.
  pub record InSync (bc bc' : BlockChain E) : Type 0 where
    pub current_block : bc'.current_block ≡ bc.current_block
    pub trie_db : bc'.trie_db ≡ bc.trie_db
    pub partition_map : bc'.partition_map ≡ bc.partition_map
    pub shard_id : bc'.config.shard_id ≡ bc.config.shard_id
    pub shard_num : bc'.config.shard_num ≡ bc.config.shard_num
    pub init_balance : bc'.config.init_balance ≡ bc.config.init_balance

  same_update :
      (txs : List Transaction) (bc bc' : BlockChain E)
      → InSync bc bc'
      → get_update_status_trie E txs bc' ≡ get_update_status_trie E txs bc
  unfolding get_update_status_trie
  same_update txs bc bc' s =
      rw (s.current_block, s.trie_db, s.partition_map, s.shard_id, s.shard_num, s.init_balance) refl

  packed : BlockChain E → List Transaction
  packed bc = (TxPool.pack_txs bc.config.block_size bc.tx_pool).0

  made_block : ℕ → Bytes → BlockChain E → Block
  made_block now root bc = with_hash E (
      new_block (next_header E now root (get_tx_tree_root E.hash_trie E.encode_tx (packed bc)) bc)
        (packed bc) [])

  made_chain : E.accounts.Db → BlockChain E → BlockChain E
  made_chain d bc = record bc {
    trie_db = d;
    tx_pool = (TxPool.pack_txs bc.config.block_size bc.tx_pool).1;
  }

  appended :
      (b : Block) (bc : BlockChain E)
      → b.hash ≢ []
      → (bc' : BlockChain E) × (append_block E b bc ≡ ok bc')
        × (bc'.current_block ≡ b)
        × (bc'.trie_db ≡ bc.trie_db)
        × (bc'.partition_map ≡ bc.partition_map)
        × (bc'.config ≡ bc.config)
  unfolding append_block
  appended b bc h =
      let (s, made, newest, blocks, headers) = store_block_lem E.buckets b bc.storage h in
      (record bc { current_block = b; storage = s }, rw made refl, refl, refl, refl, refl)

  generates_txs :
      (now : ℕ) (bc : BlockChain E)
      → bc.config.utxo ≡ false
      → generate_block E now bc ≡ generate_tx_block E now bc
  unfolding generate_block
  generates_txs now bc mode =
      ap (λ u. if u then ok (generate_utxo_block E now bc) else generate_tx_block E now bc) mode

  generated :
      (now : ℕ) (bc bc₁ : BlockChain E) (b : Block)
      → bc.config.utxo ≡ false
      → generate_block E now bc ≡ ok (b, bc₁)
      → (root : Bytes) × (d : E.accounts.Db) × (get_update_status_trie E (packed bc) bc
          ≡ ok (root, d))
        × (b ≡ made_block now root bc)
        × (bc₁ ≡ made_chain d bc)
  unfolding generate_tx_block packed made_block made_chain
  generated now bc bc₁ b mode e =
      let ((root, d), updated, same) =
        >>=-eq-ok (get_update_status_trie E (packed bc) bc) _
          (sym (generates_txs now bc mode) ∙ e) in
      (
        root,
        d,
        updated,
        ap (λ p. p.0) (sym (ok-injective same)),
        ap (λ p. p.1) (sym (ok-injective same)),
      )

  adds_next :
      (b : Block) (bc : BlockChain E)
      → b.header.number ≡ add_u64 bc.current_block.header.number 1
      → add_block E b bc ≡ (execute_block E b bc >>= append_block E b)
  unfolding add_block
  adds_next b bc h =
      ap (λ t. if t then execute_block E b bc >>= append_block E b else ok bc)
        ((eq_iff b.header.number (add_u64 bc.current_block.header.number 1)).1 h)

  is_foreign : Block → BlockChain E → Bool
  is_foreign b bc = not (b.header.miner == bc.config.node_id) && not bc.config.utxo

  executed : Block → BlockChain E → Bool → Outcome (BlockChain E)
  executed b bc t =
      if t
      then (do (root, d) ← get_update_status_trie E b.body bc; ok (record bc { trie_db = d }))
      else ok bc

  -- The main node has handled the transactions of its block; another node handles them.
  executes_nothing :
      (b : Block) (bc : BlockChain E)
      → b.header.miner ≡ bc.config.node_id
      → execute_block E b bc ≡ ok bc
  unfolding execute_block is_foreign executed
  executes_nothing b bc h =
      ap (executed b bc) (own (b.header.miner) bc.config.node_id bc.config.utxo h)
    where
      own : (m n : ℕ) (u : Bool) → m ≡ n → (not (m == n) && not u) ≡ false
      own m n u h = rw (h, eq_refl n) refl

  executes_block :
      (root : Bytes) (d : E.accounts.Db) (b : Block) (bc : BlockChain E)
      → b.header.miner ≢ bc.config.node_id
      → bc.config.utxo ≡ false
      → get_update_status_trie E b.body bc ≡ ok (root, d)
      → execute_block E b bc ≡ ok (record bc { trie_db = d })
  unfolding execute_block is_foreign executed
  executes_block root d b bc h mode updated =
      ap (executed b bc) (foreign b.header.miner bc.config.node_id bc.config.utxo h mode)
      ∙ ap (λ m. m >>= (λ r. ok (record bc { trie_db = r.1 }))) updated
    where
      foreign : (m n : ℕ) (u : Bool) → m ≢ n → u ≡ false → (not (m == n) && not u) ≡ true
      foreign m n u h e = ground arith

  made-IsValid :
      (now : ℕ) (root : Bytes) (bc bc' : BlockChain E)
      → bc'.current_block ≡ bc.current_block
      → is_valid_block E (made_block now root bc) bc' ≡ true
  unfolding is_valid_block made_block new_block
  made-IsValid now root bc bc' same =
      rw (same, eq_refl bc.current_block.hash)
        (eq_refl (get_tx_tree_root E.hash_trie E.encode_tx (packed bc)))

  -- The block is valid for the other node; both add it, and agree on it.
  Synced : Block → BlockChain E → BlockChain E → Type 0
  Synced b bc₁ bc' =
      (bc₂ bc₂' : BlockChain E) × (is_valid_block E b bc' ≡ true)
      × (add_block E b bc₁ ≡ ok bc₂)
      × (add_block E b bc' ≡ ok bc₂')
      × (bc₂.current_block ≡ b)
      × InSync bc₂ bc₂'

  made-Synced :
      (now : ℕ) (root : Bytes) (d : E.accounts.Db) (bc bc' : BlockChain E)
      → ((h : BlockHeader) → E.hash_header h ≢ [])
      → bc.config.node_id ≡ 0
      → bc'.config.node_id ≢ 0
      → bc'.config.utxo ≡ false
      → InSync bc bc'
      → get_update_status_trie E (packed bc) bc ≡ ok (root, d)
      → Synced (made_block now root bc) (made_chain d bc) bc'
  unfolding Synced made_block made_chain new_block
  made-Synced now root d bc bc' hashed main other mode s updated =
      let b = made_block now root bc in
      let (bc₂, added, current, db, map, config) = appended b (made_chain d bc) (hashed b.header) in
      let (bc₂', added', current', db', map', config') =
        appended b (record bc' { trie_db = d }) (hashed b.header) in
      (
        bc₂,
        bc₂',
        made-IsValid now root bc bc' s.current_block,
        adds_next b (made_chain d bc) refl
            ∙ ap (λ m. m >>= append_block E b) (executes_nothing b (made_chain d bc) (sym main))
            ∙ added,
        adds_next b bc' (ap (λ c. add_u64 c.header.number 1) (sym s.current_block))
            ∙ ap (λ m. m >>= append_block E b)
                (executes_block root d b bc' (λ h. other (sym h)) mode
                  (same_update (packed bc) bc bc' s ∙ updated))
            ∙ added',
        current,
        record {
          current_block = current' ∙ sym current;
          trie_db = db' ∙ sym db;
          partition_map = map' ∙ s.partition_map ∙ sym map;
          shard_id = ap (λ c. c.shard_id) config' ∙ s.shard_id ∙ ap (λ c. c.shard_id) (sym config);
          shard_num =
              ap (λ c. c.shard_num) config' ∙ s.shard_num ∙ ap (λ c. c.shard_num) (sym config);
          init_balance =
              ap (λ c. c.init_balance) config'
              ∙ s.init_balance
              ∙ ap (λ c. c.init_balance) (sym config);
        },
      )

  -- Outside UTXO mode, with no header whose hash is empty: where a main node (node 0) and another node
  -- of its shard agree, a block that the main node makes is valid
  -- for the other; both add it, and agree again: on the block, and on the trie database.
  pub block_keeps_sync :
      (now : ℕ) (bc bc₁ bc' : BlockChain E) (b : Block)
      → ((h : BlockHeader) → E.hash_header h ≢ [])
      → bc.config.node_id ≡ 0
      → bc'.config.node_id ≢ 0
      → bc.config.utxo ≡ false
      → bc'.config.utxo ≡ false
      → InSync bc bc'
      → generate_block E now bc ≡ ok (b, bc₁)
      → (bc₂ bc₂' : BlockChain E) × (is_valid_block E b bc' ≡ true)
        × (add_block E b bc₁ ≡ ok bc₂)
        × (add_block E b bc' ≡ ok bc₂')
        × (bc₂.current_block ≡ b)
        × InSync bc₂ bc₂'
  unfolding Synced
  block_keeps_sync now bc bc₁ bc' b hashed main other mode mode' s e =
      let (root, d, updated, made, rest) = generated now bc bc₁ b mode e in
      subst (λ x. Synced x bc₁ bc') (sym made)
        (subst (λ x. Synced (made_block now root bc) x bc') (sym rest)
          (made-Synced now root d bc bc' hashed main other mode' s updated))
