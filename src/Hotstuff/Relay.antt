-- ===== src/Hotstuff/Relay.antt =====
-- consensus_shard/synchotstuff_all/synchotstuffMod_Relay_utxo.go: the extra module that relays UTXO
-- transactions. It sorts and sends them as the module of the PBFT node does.
use utxo_block_emulator.Base.{
  List, [], ◌∷◌, ◌++◌, map, Bool, true, false, Option, some, Bytes, bytes_eq, nat_eq, ℕ, ◌==◌,
  if◌then◌else◌, length, add_u64, sub_u64, not, ◌^◌, ◌-◌,
}
use utxo_block_emulator.Base.GoMap
use utxo_block_emulator.Base.Outcome.{Outcome, ok, panic, or_panic, ◌>>=◌}
use utxo_block_emulator.Core.Block.{Block}
use utxo_block_emulator.Core.UtxoTransaction.{UtxoTransaction}
use utxo_block_emulator.Core.TxPool
use utxo_block_emulator.Core.TxPool.{TxPool}
use utxo_block_emulator.Message.{Request, Propose, SendOldMessage, BlockInfoMsg, block_request}
use utxo_block_emulator.Chain.Blockchain.{
  Env, BlockChain, shard_of_addr, generate_block, add_block, is_valid_utxo_block,
}
use utxo_block_emulator.Pbft.Modules.{RelayOut, block_info}
use utxo_block_emulator.Pbft.Modules.UtxoRelay.{SortedUtxo, sort_utxos, send_utxo_relays, makeup_tx}
use utxo_block_emulator.Hotstuff.{HotstuffNode, HotstuffMod}

-- The relay pool is made anew.
abbrev pub unsorted : TxPool UtxoTransaction → SortedUtxo
unsorted pool = record {
  pool = record pool { relay_pool = some [] };
  relay1_txs = [];
  tx_excuted = [];
}

-- `encode` and `decode` are the gob encoding of a block, and its decoding, which panics on what is not
-- one; `now` is the reading of the clock.
module _ (E : Env) (encode : Block → Bytes) (decode : Bytes → Option Block)
    (now : HotstuffNode (BlockChain E) → ℕ) where
  abbrev pub ChainNode : Type 0
  ChainNode = HotstuffNode (BlockChain E)

  -- The block of a round of `Propose`, and its request.
  unfoldable pub make_request : ChainNode → Outcome (ChainNode × Request)
  unfolding generate_block
  make_request n = do
    (block, chain) ← generate_block E (now n) n.cur_chain
    ok (
      record n { cur_chain = chain },
      record { request_type = block_request; content = encode block; req_time = now n },
    )

  -- `HandleinPropose`
  unfoldable pub check_proposal : Propose → ChainNode → Outcome (ChainNode × Bool)
  unfolding is_valid_utxo_block
  check_proposal msg n = do
    block ← or_panic (decode msg.request_msg.content)
    ok (
        if is_valid_utxo_block E block n.cur_chain
        then (
          record n { request_pool = GoMap.insert msg.digest msg.request_msg n.request_pool },
          true,
        )
        else (n, false))

  abbrev pub info_of : Request → Block → SortedUtxo → ChainNode → BlockInfoMsg
  info_of r block s n = record {
    block_body_length = length block.utxo;
    excuted_txs = map makeup_tx s.tx_excuted;
    epoch = 0;
    propose_time = r.req_time;
    commit_time = now n;
    sender_shard_id = n.shard_id;
    relay1_tx_num = length s.relay1_txs;
    relay1_txs = map makeup_tx s.relay1_txs;
    broker1_tx_num = 0;
    broker1_txs = [];
    broker2_tx_num = 0;
    broker2_txs = [];
  }

  -- What the main node does with a block after it has added it.
  unfoldable pub relay_committed : Request → Block → ChainNode → Outcome (ChainNode × List RelayOut)
  unfolding sort_utxos send_utxo_relays
  relay_committed r block n = do
    s ←
        sort_utxos (shard_of_addr E n.cur_chain) n.shard_id block.utxo
          (unsorted n.cur_chain.utxo_tx_pool)
    ok (
      record n { cur_chain = record n.cur_chain { utxo_tx_pool = TxPool.clear_relay_pool s.pool } },
      send_utxo_relays n.shard_id n.sequence_id (TxPool.relay_map n.cur_chain.tx_pool)
            (TxPool.relay_map s.pool) n.cur_chain.config.shard_nums 0
          ++ (block_info (info_of r block s n) ∷ []),
    )

  -- `Commit`
  unfoldable pub commit_proposal : Propose → ChainNode → Outcome (ChainNode × List RelayOut)
  unfolding relay_committed add_block
  commit_proposal msg n = do
    r ← or_panic (GoMap.lookup msg.digest n.request_pool)
    block ← or_panic (decode r.content)
    chain ← add_block E block n.cur_chain
    (if n.node_id == n.view
        then relay_committed r block (record n { cur_chain = chain })
        else ok (record n { cur_chain = chain }, []))

  -- `HandleinVote` and `HandleReqestforOldSeq` do nothing.
  abbrev pub nothing : {M : Type 0} → M → ChainNode → Outcome ChainNode
  nothing msg n = ok n

  unfoldable pub add_asked : List Request → BlockChain E → Outcome (BlockChain E)
  unfolding add_block
  add_asked [] bc = ok bc
  add_asked (r ∷ rs) bc =
      let rest = add_asked rs in
      if r.request_type == block_request
      then (do b ← or_panic (decode r.content); bc' ← add_block E b bc; rest bc')
      else rest bc

  -- `int(som.SeqEndHeight-som.SeqStartHeight+1) != len(som.OldRequest)`; a length is below 2^63.
  abbrev pub has_all : SendOldMessage → Bool
  has_all msg =
      add_u64 (sub_u64 msg.seq_end_height msg.seq_start_height) 1 == length msg.old_request

  -- `HandleforSequentialRequest`. The loop runs over the requests once; where the last height is the
  -- largest number, it wraps around and reads past them.
  unfoldable pub add_blocks_asked : SendOldMessage → ChainNode → Outcome ChainNode
  unfolding add_asked
  add_blocks_asked msg n = if not (has_all msg) then ok n else (do
    chain ← add_asked msg.old_request n.cur_chain
    (if msg.seq_end_height == 2 ^ 64 - 1
        then panic
        else ok (record n { cur_chain = chain; sequence_id = add_u64 msg.seq_end_height 1 })))

  abbrev pub utxo_relay_mod : HotstuffMod (BlockChain E) RelayOut
  utxo_relay_mod = record {
    handle_in_propose = check_proposal;
    commit = commit_proposal;
    handle_in_vote = nothing;
    handle_reqest_for_old_seq = nothing;
    handle_for_sequential_request = add_blocks_asked;
  }
