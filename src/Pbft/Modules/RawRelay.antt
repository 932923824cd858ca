-- ===== src/Pbft/Modules/RawRelay.antt =====
-- consensus_shard/pbft_all/pbftInside_module.go: the module that relays transactions across shards.
use utxo_block_emulator.Base.{
  ℕ, zero, suc, List, [], ◌∷◌, ◌++◌, true, ◌||◌, Option, some, Bytes, bytes_eq, nat_eq, ◌==◌,
  if◌then◌else◌, length,
}
use utxo_block_emulator.Base.GoMap
use utxo_block_emulator.Base.GoMap.{GoMap}
use utxo_block_emulator.Base.Outcome.{Outcome, ok, or_panic, ◌>>=◌}
use utxo_block_emulator.Core.Block.{Block}
use utxo_block_emulator.Core.Transaction.{Transaction}
use utxo_block_emulator.Core.TxPool
use utxo_block_emulator.Core.TxPool.{TxPool}
use utxo_block_emulator.Message.{Request, Commit, BlockInfoMsg}
use utxo_block_emulator.Chain.Blockchain.{Env, BlockChain, shard_of_addr, add_block, is_valid_block}
use utxo_block_emulator.Pbft.{Node, InsideMod}
use utxo_block_emulator.Pbft.Modules.{
  RelayOut, relay_to, block_info, propose_block, check_block, no_operation, handle_sequence,
}

-- The pool with its relay pool, `relay1Txs`, and `txExcuted`.
pub record Sorted : Type 0 where
  pub pool : TxPool Transaction
  pub relay1_txs : List Transaction
  pub tx_excuted : List Transaction

-- The flag is set on the transaction that the block, the pool and `relay1Txs` share.
abbrev pub relayed_tx : Transaction → Transaction
relayed_tx tx = record tx { relayed = true }

module _ (partition : Bytes → Outcome ℕ) (shard_id : ℕ) where
  unfoldable pub relay_tx : ℕ → Transaction → Sorted → Outcome Sorted
  relay_tx rsid tx s = do
    pool ← TxPool.add_relay_tx (relayed_tx tx) rsid s.pool
    ok (record s { pool = pool; relay1_txs = s.relay1_txs ++ (relayed_tx tx ∷ []) })

  unfoldable pub sort_tx : Transaction → Sorted → Outcome Sorted
  unfolding relay_tx
  sort_tx tx s = do
    rsid ← partition tx.recipient
    (if rsid == shard_id
        then ok (record s { tx_excuted = s.tx_excuted ++ (tx ∷ []) })
        else relay_tx rsid tx s)

  unfoldable pub sort_txs : List Transaction → Sorted → Outcome Sorted
  unfolding sort_tx
  sort_txs [] s = ok s
  sort_txs (tx ∷ txs) s = do s' ← sort_tx tx s; sort_txs txs s'

-- The loop over the shards, from `sid`.
unfoldable pub send_relays :
    (shard_id seq : ℕ) → GoMap ℕ (List Transaction) → (rounds sid : ℕ) → List RelayOut
send_relays shard_id seq pool zero sid = []
send_relays shard_id seq pool (suc rounds) sid =
    let rest = send_relays shard_id seq pool rounds (suc sid) in
    if sid == shard_id || length (GoMap.get_or sid [] pool) == 0
    then rest
    else relay_to sid
        (record { txs = GoMap.get_or sid [] pool; sender_shard_id = shard_id; sender_seq = seq })
      ∷ rest

module _ (E : Env) (encode : Block → Bytes) (decode : Bytes → Option Block)
    (now : Node (BlockChain E) → ℕ) where
  abbrev pub block_info_of : Request → Block → Sorted → Node (BlockChain E) → BlockInfoMsg
  block_info_of r block s n = record {
    block_body_length = length block.body;
    excuted_txs = s.tx_excuted;
    epoch = 0;
    propose_time = r.req_time;
    commit_time = now n;
    sender_shard_id = n.shard_id;
    relay1_tx_num = length s.relay1_txs;
    relay1_txs = s.relay1_txs;
    broker1_tx_num = 0;
    broker1_txs = [];
    broker2_tx_num = 0;
    broker2_txs = [];
  }

  -- The loop over the body starts from an empty relay pool.
  abbrev pub unsorted : TxPool Transaction → Sorted
  unsorted pool = record {
    pool = record pool { relay_pool = some [] };
    relay1_txs = [];
    tx_excuted = [];
  }

  -- What the main node does with the block that it has added. (The transactions are those of the
  -- chain's current block, whose body nothing reads.)
  unfoldable pub relay_block :
      Request → Block → Node (BlockChain E) → Outcome (Node (BlockChain E) × List RelayOut)
  unfolding sort_txs send_relays
  relay_block r block n = do
    s ← sort_txs (shard_of_addr E n.cur_chain) n.shard_id block.body (unsorted n.cur_chain.tx_pool)
    ok (
      record n { cur_chain = record n.cur_chain { tx_pool = TxPool.clear_relay_pool s.pool } },
      send_relays n.shard_id n.sequence_id (TxPool.relay_map s.pool) n.cur_chain.config.shard_nums 0
          ++ (block_info (block_info_of r block s n) ∷ []),
    )

  -- `HandleinCommit`
  unfoldable pub commit_block :
      Commit → Node (BlockChain E) → Outcome (Node (BlockChain E) × List RelayOut)
  unfolding relay_block add_block
  commit_block msg n = do
    r ← or_panic (GoMap.lookup msg.digest n.request_pool)
    block ← or_panic (decode r.content)
    chain ← add_block E block n.cur_chain
    (if n.node_id == n.view
        then relay_block r block (record n { cur_chain = chain })
        else ok (record n { cur_chain = chain }, []))

  abbrev pub raw_relay_mod : InsideMod (BlockChain E) RelayOut
  raw_relay_mod = record {
    handle_in_propose = propose_block E encode decode now;
    handle_in_pre_prepare = check_block E encode decode now (is_valid_block E);
    handle_in_prepare = no_operation E encode decode now;
    handle_in_commit = commit_block;
    handle_reqest_for_old_seq = no_operation E encode decode now;
    handle_for_sequential_request = handle_sequence E encode decode now;
  }
