-- ===== src/Pbft/ClpaBroker/Inside.antt =====
-- consensus_shard/pbft_all/pbftInside_modCLPABroker.go. The checks and the old requests are handled as in
-- Pbft/Clpa/Inside.
use utxo_block_emulator.Base.{
  ℕ, List, [], ◌∷◌, ◌++◌, Bool, not, ◌&&◌, ◌||◌, Option, none, some, Bytes, bytes_eq, nat_eq, ◌==◌,
  if◌then◌else◌, length,
}
use utxo_block_emulator.Base.GoMap
use utxo_block_emulator.Base.Outcome.{Outcome, ok, panic, or_panic, ◌>>=◌}
use utxo_block_emulator.Core.Block.{Block}
use utxo_block_emulator.Core.Transaction.{Transaction}
use utxo_block_emulator.Message.{Request, PrePrepare, Commit, SendOldMessage, BlockInfoMsg}
use utxo_block_emulator.Chain.Blockchain.{Env, shard_of_addr, add_block}
use utxo_block_emulator.Pbft.Modules.{RelayOut, block_info}
use utxo_block_emulator.Pbft.Modules.RawBroker.{BrokerSorted, send_seq_ids}
use utxo_block_emulator.Pbft.Clpa.{AccountTransferMsg, ClpaNode, ClpaOut, partition_req}
use utxo_block_emulator.Pbft.Clpa.Transfer.{with_chain}
use utxo_block_emulator.Pbft.Clpa.Inside.{
  Phase, starts, waits_ready, waits_collect, propose_clpa_block, check_clpa, handle_clpa_sequence,
}
use utxo_block_emulator.Pbft.ClpaBroker.Transfer.{
  is_raw, broker_partition_ready, get_broker_partition_ready, send_broker_accounts_and_txs,
  propose_broker_partition, broker_transfer_do,
}

-- A transaction that this shard should not execute: its halves that are executed elsewhere.
unfoldable pub is_misplaced : (sender_in recipient_in : Bool) → Transaction → Bool
is_misplaced sender_in recipient_in tx =
    tx.sender == tx.original_sender && not sender_in
    || tx.recipient == tx.final_recipient && not recipient_in
    || is_raw tx
      && (if tx.has_broker
          then tx.sender_is_broker && not recipient_in || not tx.sender_is_broker && not sender_in
          else not sender_in || not recipient_in)

module _ (partition : Bytes → Outcome ℕ) (shard_id : ℕ) where
  unfoldable pub sort_clpa_broker_tx : Transaction → BrokerSorted → Outcome BrokerSorted
  unfolding is_misplaced
  sort_clpa_broker_tx tx s = do
    ssid ← partition tx.sender
    rsid ← partition tx.recipient
    (if is_misplaced (ssid == shard_id) (rsid == shard_id) tx
        then panic
        else if tx.recipient == tx.final_recipient
        then ok (record s { broker2_txs = s.broker2_txs ++ (tx ∷ []) })
        else if tx.sender == tx.original_sender
        then ok (record s { broker1_txs = s.broker1_txs ++ (tx ∷ []) })
        else ok (record s { tx_excuted = s.tx_excuted ++ (tx ∷ []) }))

  unfoldable pub sort_clpa_broker_txs : List Transaction → BrokerSorted → Outcome BrokerSorted
  unfolding sort_clpa_broker_tx
  sort_clpa_broker_txs [] s = ok s
  sort_clpa_broker_txs (tx ∷ txs) s = do s' ← sort_clpa_broker_tx tx s; sort_clpa_broker_txs txs s'

module _ (E : Env) (encode : Block → Bytes) (decode : Bytes → Option Block)
    (encode_atm : AccountTransferMsg → Bytes) (decode_atm : Bytes → Option AccountTransferMsg)
    (now : ClpaNode E → ℕ) (clock : ℕ → ℕ) where
  -- The node, what it sends to the other shards and to the supervisor, the next phase, and the request.
  abbrev pub BrokerProposing : Type 0
  BrokerProposing = (ClpaNode E × List ClpaOut × List Transaction) × Phase × Option Request

  -- `HandleinPropose`, up to its next sleep, or to the request that it proposes.
  unfoldable pub broker_propose_step : Phase → ClpaNode E → Outcome BrokerProposing
  unfolding propose_clpa_block send_broker_accounts_and_txs propose_broker_partition
  broker_propose_step starts n =
      if n.cur_chain.cdm.partition_on
      then (let (n', outs) = broker_partition_ready E n in ok ((n', outs, []), waits_ready, none))
      else (do
        ((n', outs), phase, r) ←
            propose_clpa_block E encode decode encode_atm decode_atm now clock n
        ok ((n', outs, []), phase, r))
  broker_propose_step waits_ready n =
      if get_broker_partition_ready E n
      then (do r ← send_broker_accounts_and_txs E n; ok (r, waits_collect, none))
      else ok ((n, [], []), waits_ready, none)
  broker_propose_step waits_collect n =
      if n.cur_chain.cdm.collect_over
      then (do
        (n', r) ← propose_broker_partition E encode_atm clock (now n) n
        ok ((n', [], []), starts, some r))
      else ok ((n, [], []), waits_collect, none)

  abbrev pub check_clpa_broker : PrePrepare → ClpaNode E → Outcome (ClpaNode E × Bool)
  check_clpa_broker msg n = check_clpa E encode decode encode_atm decode_atm now clock msg n

  abbrev pub handle_clpa_broker_sequence : SendOldMessage → ClpaNode E → Outcome (ClpaNode E)
  handle_clpa_broker_sequence msg n =
      handle_clpa_sequence E encode decode encode_atm decode_atm now clock msg n

  abbrev pub clpa_broker_info_of : Request → Block → BrokerSorted → ClpaNode E → BlockInfoMsg
  clpa_broker_info_of r block s n = record {
    block_body_length = length block.body;
    excuted_txs = s.tx_excuted;
    epoch = n.cur_chain.cdm.account_transfer_round;
    propose_time = r.req_time;
    commit_time = now n;
    sender_shard_id = n.shard_id;
    relay1_tx_num = 0;
    relay1_txs = [];
    broker1_tx_num = length s.broker1_txs;
    broker1_txs = s.broker1_txs;
    broker2_tx_num = length s.broker2_txs;
    broker2_txs = s.broker2_txs;
  }

  -- What the main node does with the block that it has added.
  unfoldable pub clpa_broker_block :
      Request → Block → ClpaNode E → Outcome (ClpaNode E × List RelayOut)
  unfolding sort_clpa_broker_txs send_seq_ids
  clpa_broker_block r block n = do
    s ←
        sort_clpa_broker_txs (shard_of_addr E n.cur_chain.chain) n.shard_id block.body
          (record { tx_excuted = []; broker1_txs = []; broker2_txs = [] })
    ok (
      n,
      send_seq_ids n.shard_id n.sequence_id n.cur_chain.chain.config.shard_nums 0
          ++ (block_info (clpa_broker_info_of r block s n) ∷ []),
    )

  unfoldable pub commit_clpa_broker_block :
      Request → ClpaNode E → Outcome (ClpaNode E × List RelayOut)
  unfolding clpa_broker_block add_block
  commit_clpa_broker_block r n = do
    block ← or_panic (decode r.content)
    chain ← add_block E block n.cur_chain.chain
    (if n.node_id == n.view
        then clpa_broker_block r block (with_chain E chain n)
        else ok (with_chain E chain n, []))

  -- `HandleinCommit`
  unfoldable pub commit_clpa_broker : Commit → ClpaNode E → Outcome (ClpaNode E × List RelayOut)
  unfolding commit_clpa_broker_block
  commit_clpa_broker msg n = do
    r ← or_panic (GoMap.lookup msg.digest n.request_pool)
    (if r.request_type == partition_req
        then (do
          atm ← or_panic (decode_atm r.content)
          n' ← broker_transfer_do E atm n
          ok (n', []))
        else commit_clpa_broker_block r n)
