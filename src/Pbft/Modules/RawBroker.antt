-- ===== src/Pbft/Modules/RawBroker.antt =====
-- consensus_shard/pbft_all/pbftInside_moduleBroker.go, pbftOutside_moduleBroker.go: the modules for
-- transactions that brokers carry across shards.
use utxo_block_emulator.Base.{
  ℕ, zero, suc, ◌+◌, ◌-◌, ◌^◌, ◌≤◌, ◌<◌, ◌≡◌, ap, arith, List, [], ◌∷◌, ◌++◌, Bool, false, not,
  ◌&&◌, Option, Bytes, bytes_eq, nat_eq, ◌==◌, if◌then◌else◌, length, add_u64, sub_u64,
}
use utxo_block_emulator.Base.GoMap
use utxo_block_emulator.Base.Outcome.{Outcome, ok, panic, or_panic, ◌>>=◌}
use utxo_block_emulator.Core.Block.{Block}
use utxo_block_emulator.Core.Transaction.{Transaction}
use utxo_block_emulator.Message.{Request, Commit, SendOldMessage, BlockInfoMsg}
use utxo_block_emulator.Chain.Blockchain.{Env, BlockChain, add_block, is_valid_block}
use utxo_block_emulator.Pbft.{Node, InsideMod}
use utxo_block_emulator.Pbft.Modules.{
  RelayOut, seq_id_to, block_info, propose_block, check_block, no_operation, add_old_block,
}

-- `txExcuted`, `broker1Txs` and `broker2Txs`.
pub record BrokerSorted : Type 0 where
  pub tx_excuted : List Transaction
  pub broker1_txs : List Transaction
  pub broker2_txs : List Transaction

-- An empty hash is nil: gob does not tell them apart.
abbrev pub is_inner_shard_tx : Transaction → Bool
is_inner_shard_tx tx = tx.raw_tx_hash == []

abbrev pub is_broker1_tx : Transaction → Bool
is_broker1_tx tx = not (is_inner_shard_tx tx) && tx.sender == tx.original_sender

abbrev pub is_broker2_tx : Transaction → Bool
is_broker2_tx tx = not (is_inner_shard_tx tx) && tx.recipient == tx.final_recipient

unfoldable pub sort_broker_tx : Transaction → BrokerSorted → BrokerSorted
sort_broker_tx tx s =
    if is_broker2_tx tx
    then record s { broker2_txs = s.broker2_txs ++ (tx ∷ []) }
    else if is_broker1_tx tx
    then record s { broker1_txs = s.broker1_txs ++ (tx ∷ []) }
    else record s { tx_excuted = s.tx_excuted ++ (tx ∷ []) }

unfoldable pub sort_broker_txs : List Transaction → BrokerSorted → BrokerSorted
unfolding sort_broker_tx
sort_broker_txs [] s = s
sort_broker_txs (tx ∷ txs) s = sort_broker_txs txs (sort_broker_tx tx s)

-- The loop over the shards, from `sid`.
unfoldable pub send_seq_ids : (shard_id seq : ℕ) → (rounds sid : ℕ) → List RelayOut
send_seq_ids shard_id seq zero sid = []
send_seq_ids shard_id seq (suc rounds) sid =
    let rest = send_seq_ids shard_id seq rounds (suc sid) in
    if sid == shard_id
    then rest
    else seq_id_to sid (record { sender_shard_id = shard_id; sender_seq = seq }) ∷ rest

module _ (E : Env) (encode : Block → Bytes) (decode : Bytes → Option Block)
    (now : Node (BlockChain E) → ℕ) where
  abbrev pub broker_info_of :
      (epoch : ℕ) → Request → Block → BrokerSorted → Node (BlockChain E) → BlockInfoMsg
  broker_info_of epoch r block s n = record {
    block_body_length = length block.body;
    excuted_txs = s.tx_excuted;
    epoch = epoch;
    propose_time = r.req_time;
    commit_time = now n;
    sender_shard_id = n.shard_id;
    relay1_tx_num = 0;
    relay1_txs = [];
    broker1_tx_num = length s.broker1_txs;
    broker1_txs = s.broker1_txs;
    broker2_tx_num = length s.broker2_txs;
    broker2_txs = s.broker2_txs;
  }

  -- What the main node sends of the block that it has added.
  unfoldable pub broker_block : Request → Block → Node (BlockChain E) → List RelayOut
  unfolding sort_broker_txs send_seq_ids
  broker_block r block n =
      send_seq_ids n.shard_id n.sequence_id n.cur_chain.config.shard_nums 0
      ++ (block_info (
            broker_info_of 0 r block
              (sort_broker_txs block.body
                (record { tx_excuted = []; broker1_txs = []; broker2_txs = [] }))
              n)
          ∷ [])

  -- `HandleinCommit`
  unfoldable pub commit_broker_block :
      Commit → Node (BlockChain E) → Outcome (Node (BlockChain E) × List RelayOut)
  unfolding broker_block add_block
  commit_broker_block msg n = do
    r ← or_panic (GoMap.lookup msg.digest n.request_pool)
    block ← or_panic (decode r.content)
    chain ← add_block E block n.cur_chain
    ok (
      record n { cur_chain = chain },
      if n.node_id == n.view then broker_block r block (record n { cur_chain = chain }) else [],
    )

  -- `rounds` heights, from the first request on; past the last request, the read panics.
  unfoldable pub add_heights : (rounds : ℕ) → List Request → BlockChain E → Outcome (BlockChain E)
  unfolding add_old_block
  add_heights zero rs bc = ok bc
  add_heights (suc rounds) [] bc = panic
  add_heights (suc rounds) (r ∷ rs) bc = do
    bc' ← add_old_block E encode decode now r bc
    add_heights rounds rs bc'

  -- `int(som.SeqStartHeight-som.SeqEndHeight) == len(som.OldRequest)`; a length is below 2^63.
  abbrev pub is_reversed : SendOldMessage → Bool
  is_reversed msg = sub_u64 msg.seq_start_height msg.seq_end_height == length msg.old_request

  -- `HandleforSequentialRequest`
  unfoldable pub handle_broker_sequence :
      SendOldMessage → Node (BlockChain E) → Outcome (Node (BlockChain E))
  unfolding add_heights
  handle_broker_sequence msg n =
      if is_reversed msg
      then (do
        chain ←
            add_heights (msg.seq_end_height + 1 - msg.seq_start_height) msg.old_request n.cur_chain
        ok (record n { cur_chain = chain; sequence_id = add_u64 msg.seq_end_height 1 }))
      else ok n

  abbrev pub raw_broker_mod : InsideMod (BlockChain E) RelayOut
  raw_broker_mod = record {
    handle_in_propose = propose_block E encode decode now;
    handle_in_pre_prepare = check_block E encode decode now (is_valid_block E);
    handle_in_prepare = no_operation E encode decode now;
    handle_in_commit = commit_broker_block;
    handle_reqest_for_old_seq = no_operation E encode decode now;
    handle_for_sequential_request = handle_broker_sequence;
  }

  differs : (s e l : ℕ) → s ≤ e → e < 2 ^ 63 → 0 < l → l < 2 ^ 63 → (sub_u64 s e == l) ≡ false
  differs s e l ordered small some_old few = ground arith

  pub handle_broker_sequence-ignores :
      (msg : SendOldMessage) (n : Node (BlockChain E))
      → msg.seq_start_height ≤ msg.seq_end_height
      → msg.seq_end_height < 2 ^ 63
      → 0 < length msg.old_request
      → length msg.old_request < 2 ^ 63
      → handle_broker_sequence msg n ≡ ok n
  unfolding handle_broker_sequence
  handle_broker_sequence-ignores msg n ordered small some_old few =
      ap
        (λ b.
          if b
          then (do
            chain ←
                add_heights (msg.seq_end_height + 1 - msg.seq_start_height) msg.old_request
                  n.cur_chain
            ok (record n { cur_chain = chain; sequence_id = add_u64 msg.seq_end_height 1 }))
          else ok n)
        (differs msg.seq_start_height msg.seq_end_height (length msg.old_request) ordered small
          some_old few)
