-- ===== src/Pbft/Clpa/Inside.antt =====
-- consensus_shard/pbft_all/pbftInside_moduleCLPA.go. The polling loops of `HandleinPropose` let other messages
-- in between, so a proposal goes through phases.
use utxo_block_emulator.Base.{
  ℕ, zero, suc, ◌-◌, ◌^◌, List, [], ◌∷◌, ◌++◌, Bool, true, false, not, ◌&&◌, Option, none, some,
  Bytes, bytes_eq, nat_eq, ◌==◌, if◌then◌else◌, length, add_u64, sub_u64,
}
use utxo_block_emulator.Base.GoMap
use utxo_block_emulator.Base.GoMap.{GoMap}
use utxo_block_emulator.Base.Outcome.{Outcome, ok, panic, or_panic, ◌>>=◌}
use utxo_block_emulator.Core.Block.{Block}
use utxo_block_emulator.Core.Transaction.{Transaction}
use utxo_block_emulator.Core.TxPool
use utxo_block_emulator.Core.TxPool.{TxPool}
use utxo_block_emulator.Message.{
  Request, PrePrepare, Commit, SendOldMessage, BlockInfoMsg, block_request,
}
use utxo_block_emulator.Chain.Blockchain.{
  Env, shard_of_addr, generate_block, add_block, is_valid_block,
}
use utxo_block_emulator.Pbft.Modules.RawRelay.{Sorted, relay_tx}
use utxo_block_emulator.Pbft.Clpa.{
  AccountTransferMsg, ClpaNode, ClpaOut, clpa_relay_to, clpa_block_info, partition_req,
}
use utxo_block_emulator.Pbft.Clpa.Transfer.{
  with_chain, send_partition_ready, get_partition_ready, send_accounts_and_txs, propose_partition,
  account_transfer_do,
}

module _ (partition : Bytes → Outcome ℕ) (shard_id : ℕ) where
  -- A transaction that this shard should not execute panics.
  unfoldable pub sort_clpa_tx : Transaction → Sorted → Outcome Sorted
  unfolding relay_tx
  sort_clpa_tx tx s = do
    ssid ← partition tx.sender
    rsid ← partition tx.recipient
    (if not tx.relayed && not (ssid == shard_id)
        then panic
        else if tx.relayed && not (rsid == shard_id)
        then panic
        else if not tx.relayed && not (rsid == shard_id)
        then relay_tx partition shard_id rsid tx s
        else ok (record s { tx_excuted = s.tx_excuted ++ (tx ∷ []) }))

  unfoldable pub sort_clpa_txs : List Transaction → Sorted → Outcome Sorted
  unfolding sort_clpa_tx
  sort_clpa_txs [] s = ok s
  sort_clpa_txs (tx ∷ txs) s = do s' ← sort_clpa_tx tx s; sort_clpa_txs txs s'

-- The loop over the shards, from `sid`: every other shard gets a message, also an empty one.
unfoldable pub send_clpa_relays :
    (shard_id seq : ℕ) → GoMap ℕ (List Transaction) → (rounds sid : ℕ) → List ClpaOut
send_clpa_relays shard_id seq pool zero sid = []
send_clpa_relays shard_id seq pool (suc rounds) sid =
    let rest = send_clpa_relays shard_id seq pool rounds (suc sid) in
    if sid == shard_id
    then rest
    else clpa_relay_to sid
        (record { txs = GoMap.get_or sid [] pool; sender_shard_id = shard_id; sender_seq = seq })
      ∷ rest

-- Where a proposal stands: not begun, or in the first or the second polling loop.
pub data Phase : Type 0 where
  starts : Phase
  waits_ready : Phase
  waits_collect : Phase

module _ (E : Env) (encode : Block → Bytes) (decode : Bytes → Option Block)
    (encode_atm : AccountTransferMsg → Bytes) (decode_atm : Bytes → Option AccountTransferMsg)
    (now : ClpaNode E → ℕ) (clock : ℕ → ℕ) where
  abbrev pub Proposing : Type 0
  Proposing = (ClpaNode E × List ClpaOut) × Phase × Option Request

  unfoldable pub propose_clpa_block : ClpaNode E → Outcome Proposing
  unfolding generate_block
  propose_clpa_block n = do
    (block, chain) ← generate_block E (now n) n.cur_chain.chain
    ok (
      (with_chain E chain n, []),
      starts,
      some (record { request_type = block_request; content = encode block; req_time = now n }),
    )

  -- `HandleinPropose`, up to its next sleep, or to the request that it proposes.
  unfoldable pub propose_step : Phase → ClpaNode E → Outcome Proposing
  unfolding propose_clpa_block send_partition_ready get_partition_ready send_accounts_and_txs
      propose_partition
  propose_step starts n =
      if n.cur_chain.cdm.partition_on
      then ok (send_partition_ready E n, waits_ready, none)
      else propose_clpa_block n
  propose_step waits_ready n =
      if get_partition_ready E n
      then (do r ← send_accounts_and_txs E n; ok (r, waits_collect, none))
      else ok ((n, []), waits_ready, none)
  propose_step waits_collect n =
      if n.cur_chain.cdm.collect_over
      then (do
        (n', r) ← propose_partition E encode_atm clock (now n) n
        ok ((n', []), starts, some r))
      else ok ((n, []), waits_collect, none)

  -- `HandleinPrePrepare`
  unfoldable pub check_clpa : PrePrepare → ClpaNode E → Outcome (ClpaNode E × Bool)
  check_clpa msg n = do
    valid ← if msg.request_msg.request_type == partition_req then ok true else (do
      block ← or_panic (decode msg.request_msg.content)
      ok (is_valid_block E block n.cur_chain.chain))
    ok (
        if valid
        then (
          record n { request_pool = GoMap.insert msg.digest msg.request_msg n.request_pool },
          true,
        )
        else (n, false))

  abbrev pub clpa_info_of : Request → Block → Sorted → ClpaNode E → BlockInfoMsg
  clpa_info_of r block s n = record {
    block_body_length = length block.body;
    excuted_txs = s.tx_excuted;
    epoch = n.cur_chain.cdm.account_transfer_round;
    propose_time = r.req_time;
    commit_time = now n;
    sender_shard_id = n.shard_id;
    relay1_tx_num = length s.relay1_txs;
    relay1_txs = s.relay1_txs;
    broker1_tx_num = 0;
    broker1_txs = [];
    broker2_tx_num = 0;
    broker2_txs = [];
  }

  abbrev pub clpa_unsorted : TxPool Transaction → Sorted
  clpa_unsorted pool = record {
    pool = record pool { relay_pool = some [] };
    relay1_txs = [];
    tx_excuted = [];
  }

  -- What the main node does with the block that it has added.
  unfoldable pub relay_clpa_block :
      Request → Block → ClpaNode E → Outcome (ClpaNode E × List ClpaOut)
  unfolding sort_clpa_txs send_clpa_relays
  relay_clpa_block r block n = do
    s ←
        sort_clpa_txs (shard_of_addr E n.cur_chain.chain) n.shard_id block.body
          (clpa_unsorted n.cur_chain.chain.tx_pool)
    ok (
      with_chain E (record n.cur_chain.chain { tx_pool = TxPool.clear_relay_pool s.pool }) n,
      send_clpa_relays n.shard_id n.sequence_id (TxPool.relay_map s.pool)
            n.cur_chain.chain.config.shard_nums 0
          ++ (clpa_block_info (clpa_info_of r block s n) ∷ []),
    )

  unfoldable pub commit_clpa_block : Request → ClpaNode E → Outcome (ClpaNode E × List ClpaOut)
  unfolding relay_clpa_block add_block
  commit_clpa_block r n = do
    block ← or_panic (decode r.content)
    chain ← add_block E block n.cur_chain.chain
    (if n.node_id == n.view
        then relay_clpa_block r block (with_chain E chain n)
        else ok (with_chain E chain n, []))

  -- `HandleinCommit`
  unfoldable pub commit_clpa : Commit → ClpaNode E → Outcome (ClpaNode E × List ClpaOut)
  unfolding commit_clpa_block account_transfer_do
  commit_clpa msg n = do
    r ← or_panic (GoMap.lookup msg.digest n.request_pool)
    (if r.request_type == partition_req
        then (do
          atm ← or_panic (decode_atm r.content)
          n' ← account_transfer_do E atm n
          ok (n', []))
        else commit_clpa_block r n)

  unfoldable pub add_old_request : Request → ClpaNode E → Outcome (ClpaNode E)
  unfolding add_block account_transfer_do
  add_old_request r n =
      if r.request_type == block_request
      then (do
        block ← or_panic (decode r.content)
        chain ← add_block E block n.cur_chain.chain
        ok (with_chain E chain n))
      else (do atm ← or_panic (decode_atm r.content); account_transfer_do E atm n)

  unfoldable pub add_old_requests : List Request → ClpaNode E → Outcome (ClpaNode E)
  unfolding add_old_request
  add_old_requests [] n = ok n
  add_old_requests (r ∷ rs) n = do n' ← add_old_request r n; add_old_requests rs n'

  -- `HandleforSequentialRequest`, as in the other modules.
  unfoldable pub handle_clpa_sequence : SendOldMessage → ClpaNode E → Outcome (ClpaNode E)
  unfolding add_old_requests
  handle_clpa_sequence msg n =
      if add_u64 (sub_u64 msg.seq_end_height msg.seq_start_height) 1 == length msg.old_request
      then (do
        n' ← add_old_requests msg.old_request n
        (if msg.seq_end_height == 2 ^ 64 - 1
            then panic
            else ok (record n' { sequence_id = add_u64 msg.seq_end_height 1 })))
      else ok n
