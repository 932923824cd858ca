-- ===== src/Pbft/Modules/UtxoRelay.antt =====
-- consensus_shard/pbft_all/pbftInside_module_utxo.go: the module that relays UTXO transactions.
use utxo_block_emulator.Base.{
  ℕ, zero, suc, List, [], ◌∷◌, ◌++◌, map, true, ◌||◌, Option, some, Bytes, bytes_eq, nat_eq, ◌==◌,
  if◌then◌else◌, length,
}
use utxo_block_emulator.Base.Int.{pos}
use utxo_block_emulator.Base.GoMap
use utxo_block_emulator.Base.GoMap.{GoMap}
use utxo_block_emulator.Base.Outcome.{Outcome, ok, or_panic, ◌>>=◌}
use utxo_block_emulator.Core.Block.{Block}
use utxo_block_emulator.Core.Transaction.{Transaction, unhashed}
use utxo_block_emulator.Core.UtxoTransaction.{UtxoTransaction, is_coinbase}
use utxo_block_emulator.Core.TxPool
use utxo_block_emulator.Core.TxPool.{TxPool}
use utxo_block_emulator.Message.{Request, Commit, BlockInfoMsg}
use utxo_block_emulator.Chain.Blockchain.{
  Env, BlockChain, shard_of_addr, add_block, is_valid_utxo_block,
}
use utxo_block_emulator.Pbft.{Node, InsideMod}
use utxo_block_emulator.Pbft.Modules.{
  RelayOut, relay_utxo_to, block_info, propose_block, check_block, no_operation, handle_sequence,
}

-- The pool with its relay pool, `relay1Txs`, and `txExcuted`.
pub record SortedUtxo : Type 0 where
  pub pool : TxPool UtxoTransaction
  pub relay1_txs : List UtxoTransaction
  pub tx_excuted : List UtxoTransaction

abbrev pub relayed_utxo : UtxoTransaction → UtxoTransaction
relayed_utxo tx = record tx { relayed = true }

module _ (partition : Bytes → Outcome ℕ) (shard_id : ℕ) where
  unfoldable pub relay_utxo : ℕ → UtxoTransaction → SortedUtxo → Outcome SortedUtxo
  relay_utxo rsid tx s = do
    pool ← TxPool.add_relay_tx (relayed_utxo tx) rsid s.pool
    ok (record s { pool = pool; relay1_txs = s.relay1_txs ++ (relayed_utxo tx ∷ []) })

  abbrev pub keep_utxo : UtxoTransaction → SortedUtxo → SortedUtxo
  keep_utxo tx s = record s { tx_excuted = s.tx_excuted ++ (tx ∷ []) }

  -- A coinbase transaction is not relayed.
  unfoldable pub sort_utxo : UtxoTransaction → SortedUtxo → Outcome SortedUtxo
  unfolding relay_utxo is_coinbase
  sort_utxo tx s = if is_coinbase tx then ok (keep_utxo tx s) else (do
    rsid ← partition tx.recipient
    if rsid == shard_id then ok (keep_utxo tx s) else relay_utxo rsid tx s)

  unfoldable pub sort_utxos : List UtxoTransaction → SortedUtxo → Outcome SortedUtxo
  unfolding sort_utxo
  sort_utxos [] s = ok s
  sort_utxos (tx ∷ txs) s = do s' ← sort_utxo tx s; sort_utxos txs s'

-- The loop over the shards, from `sid`. It looks into the relay pool `tested`, of `Txpool`, and sends
-- from `pool`, of `UTXOTxpool`.
unfoldable pub send_utxo_relays :
    (shard_id seq : ℕ)
    → (tested : GoMap ℕ (List Transaction)) → (pool : GoMap ℕ (List UtxoTransaction))
    → (rounds sid : ℕ) → List RelayOut
send_utxo_relays shard_id seq tested pool zero sid = []
send_utxo_relays shard_id seq tested pool (suc rounds) sid =
    let rest = send_utxo_relays shard_id seq tested pool rounds (suc sid) in
    if sid == shard_id || length (GoMap.get_or sid [] tested) == 0
    then rest
    else relay_utxo_to sid
        (record { txs = GoMap.get_or sid [] pool; sender_shard_id = shard_id; sender_seq = seq })
      ∷ rest

-- The transaction that stands for a UTXO transaction in the report: its hash and its time.
abbrev pub makeup_tx : UtxoTransaction → Transaction
makeup_tx tx = record (unhashed [] [] (pos 0) 0) { tx_hash = tx.tx_hash; time = tx.time }

module _ (E : Env) (encode : Block → Bytes) (decode : Bytes → Option Block)
    (now : Node (BlockChain E) → ℕ) where
  abbrev pub utxo_block_info_of : Request → Block → SortedUtxo → Node (BlockChain E) → BlockInfoMsg
  utxo_block_info_of r block s n = record {
    block_body_length = length block.utxo;
    excuted_txs = map makeup_tx s.tx_excuted;
    epoch = 0;
    propose_time = r.req_time;
    commit_time = now n;
    sender_shard_id = n.shard_id;
    relay1_tx_num = length s.relay1_txs;
    relay1_txs = map makeup_tx s.relay1_txs;
    broker1_tx_num = 0;
    broker1_txs = [];
    broker2_tx_num = 0;
    broker2_txs = [];
  }

  abbrev pub unsorted_utxos : TxPool UtxoTransaction → SortedUtxo
  unsorted_utxos pool = record {
    pool = record pool { relay_pool = some [] };
    relay1_txs = [];
    tx_excuted = [];
  }

  unfoldable pub relay_utxo_block :
      Request → Block → Node (BlockChain E) → Outcome (Node (BlockChain E) × List RelayOut)
  unfolding sort_utxos send_utxo_relays
  relay_utxo_block r block n = do
    s ←
        sort_utxos (shard_of_addr E n.cur_chain) n.shard_id block.utxo
          (unsorted_utxos n.cur_chain.utxo_tx_pool)
    ok (
      record n { cur_chain = record n.cur_chain { utxo_tx_pool = TxPool.clear_relay_pool s.pool } },
      send_utxo_relays n.shard_id n.sequence_id (TxPool.relay_map n.cur_chain.tx_pool)
            (TxPool.relay_map s.pool) n.cur_chain.config.shard_nums 0
          ++ (block_info (utxo_block_info_of r block s n) ∷ []),
    )

  -- `HandleinCommit`
  unfoldable pub commit_utxo_block :
      Commit → Node (BlockChain E) → Outcome (Node (BlockChain E) × List RelayOut)
  unfolding relay_utxo_block add_block
  commit_utxo_block msg n = do
    r ← or_panic (GoMap.lookup msg.digest n.request_pool)
    block ← or_panic (decode r.content)
    chain ← add_block E block n.cur_chain
    (if n.node_id == n.view
        then relay_utxo_block r block (record n { cur_chain = chain })
        else ok (record n { cur_chain = chain }, []))

  abbrev pub utxo_relay_mod : InsideMod (BlockChain E) RelayOut
  utxo_relay_mod = record {
    handle_in_propose = propose_block E encode decode now;
    handle_in_pre_prepare = check_block E encode decode now (is_valid_utxo_block E);
    handle_in_prepare = no_operation E encode decode now;
    handle_in_commit = commit_utxo_block;
    handle_reqest_for_old_seq = no_operation E encode decode now;
    handle_for_sequential_request = handle_sequence E encode decode now;
  }
