-- ===== src/Pbft/ClpaBroker/Transfer.antt =====
-- consensus_shard/pbft_all/accountTransfermod_Broker.go: the account transfer, where a transaction inside the shard
-- may come to cross shards. The functions that are the same as in accountTransfer_module.go are taken from there.
use utxo_block_emulator.Base.{
  ℕ, zero, suc, List, [], ◌∷◌, ◌++◌, Bool, false, not, ◌&&◌, ◌||◌, none, some, Bytes, bytes_eq,
  nat_eq, ◌==◌, if◌then◌else◌, length, get_elem?, set, take,
}
use utxo_block_emulator.Base.GoMap.{GoMap}
use utxo_block_emulator.Base.Outcome.{Outcome, ok, or_panic, ◌>>=◌}
use utxo_block_emulator.Core.Account.{AccountState}
use utxo_block_emulator.Core.Transaction.{Transaction, transaction_timed}
use utxo_block_emulator.Core.TxPool
use utxo_block_emulator.Message.{Request}
use utxo_block_emulator.Chain.Blockchain.{Env, shard_of_addr}
use utxo_block_emulator.Chain.Blockchain.Accounts.{fetch_accounts}
use utxo_block_emulator.Pbft.Clpa.{
  AccountTransferMsg, ClpaNode, ClpaOut, accounts_to, partition_req,
}
use utxo_block_emulator.Pbft.Clpa.Transfer.{
  contains, select_accounts, accounts_to_fetch, last_map, receive_all, keys_of, values_of,
  with_chain, send_partition_ready, get_partition_ready, account_transfer_do,
}

-- `RawTxHash == nil`; an empty hash is nil.
abbrev pub is_raw : Transaction → Bool
is_raw tx = tx.raw_tx_hash == []

-- `beSend`, and what makes a transaction inside the shard cross shards; `beRemoved` is either.
unfoldable pub be_send : List Bytes → Transaction → Bool
be_send addr_set tx =
    let ok1 = contains addr_set tx.sender in
    let ok2 = contains addr_set tx.recipient in
    if is_raw tx
    then (if tx.has_broker then (if tx.sender_is_broker then ok2 else ok1) else false)
    else if tx.final_recipient == tx.recipient
    then ok2
    else if tx.original_sender == tx.sender
    then ok1
    else false

unfoldable pub be_cross : List Bytes → Transaction → Bool
be_cross addr_set tx =
    is_raw tx
    && not tx.has_broker
    && (contains addr_set tx.sender || contains addr_set tx.recipient)

-- `TxQueue`, `txSend` and `txsBeCross`.
pub record Parted : Type 0 where
  pub queue : List Transaction
  pub tx_send : List Transaction
  pub be_cross : List Transaction

-- The loop over the queue with two places in it.
unfoldable pub compact_broker :
    (sends crosses : Transaction → Bool) (rounds second first : ℕ) → Parted → Parted
compact_broker sends crosses zero second first s = record s { queue = take first s.queue }
compact_broker sends crosses (suc rounds) second first s = elim (get_elem? s.queue second) [
  | none ↦ record s { queue = take first s.queue }
  | some ptx ↦
      let crossed =
        compact_broker sends crosses rounds (suc second) first
          (record s { be_cross = s.be_cross ++ (ptx ∷ []) }) in
      let sent =
        compact_broker sends crosses rounds (suc second) first
          (record s { tx_send = s.tx_send ++ (ptx ∷ []) }) in
      let stayed =
        compact_broker sends crosses rounds (suc second) (suc first)
          (record s { queue = set s.queue first ptx }) in
      if crosses ptx then crossed else if sends ptx then sent else stayed
]

-- The loop over the shards, from `i`: the queue that is left and the transactions that come to cross
-- shards, and the messages.
unfoldable pub broker_send_to_shards :
    (m : GoMap Bytes ℕ) (shard_id : ℕ) (addrs : List Bytes) (states : List AccountState)
    (rounds i : ℕ)
    → (queue crossed : List Transaction) → (List Transaction × List Transaction) × List ClpaOut
unfolding compact_broker be_send be_cross
broker_send_to_shards m shard_id addrs states zero i queue crossed = ((queue, crossed), [])
broker_send_to_shards m shard_id addrs states (suc rounds) i queue crossed =
    let skipped = broker_send_to_shards m shard_id addrs states rounds (suc i) queue crossed in
    let (addr_send, as_send) = select_accounts m i addrs states in
    let parted =
      compact_broker (be_send addr_send) (be_cross addr_send) (length queue) 0 0
        (record { queue = queue; tx_send = []; be_cross = crossed }) in
    let rest =
      broker_send_to_shards m shard_id addrs states rounds (suc i) parted.queue parted.be_cross in
    if i == shard_id then skipped else (
      rest.0,
      accounts_to i (record {
        addrs = addr_send;
        account_state = as_send;
        txs = parted.tx_send;
        from_shard = shard_id;
      })
          ∷ rest.1,
    )

module _ (E : Env) where
  abbrev pub broker_partition_ready : ClpaNode E → ClpaNode E × List ClpaOut
  broker_partition_ready n = send_partition_ready E n

  abbrev pub get_broker_partition_ready : ClpaNode E → Bool
  get_broker_partition_ready n = get_partition_ready E n

  abbrev pub broker_transfer_do : AccountTransferMsg → ClpaNode E → Outcome (ClpaNode E)
  broker_transfer_do atm n = account_transfer_do E atm n

  -- The messages to the other shards, and the transactions for the supervisor (`InnerTx2CrossTx`).
  unfoldable pub send_broker_accounts_and_txs :
      ClpaNode E → Outcome (ClpaNode E × List ClpaOut × List Transaction)
  unfolding accounts_to_fetch broker_send_to_shards
  send_broker_accounts_and_txs n = do
    m ← last_map n.cur_chain.cdm.modified_map
    addrs ← accounts_to_fetch (shard_of_addr E n.cur_chain.chain) n.shard_id m
    states ← fetch_accounts E addrs n.cur_chain.chain
    let ((queue, crossed), outs) =
          broker_send_to_shards m n.shard_id addrs states n.cur_chain.chain.config.shard_nums 0
            n.cur_chain.chain.tx_pool.tx_queue [] in
        ok (
          with_chain E
              (record n.cur_chain.chain {
                tx_pool = record n.cur_chain.chain.tx_pool { tx_queue = queue };
              })
              n,
          outs,
          crossed,
        )

  -- Here no transaction is checked.
  unfoldable pub propose_broker_partition :
      (encode_atm : AccountTransferMsg → Bytes) (clock : ℕ → ℕ) (now : ℕ)
      → ClpaNode E
      → Outcome (ClpaNode E × Request)
  unfolding receive_all
  propose_broker_partition encode_atm clock now n = do
    cdm ← receive_all n.cur_chain.cdm.account_state_tx n.cur_chain.cdm
    m ← or_panic (get_elem? cdm.modified_map cdm.account_transfer_round)
    ok (
      record n {
        cur_chain = record {
          chain = record n.cur_chain.chain {
            tx_pool = TxPool.add_txs_to_pool clock cdm.received_new_tx n.cur_chain.chain.tx_pool;
          };
          cdm = cdm;
        };
      },
      record {
        request_type = partition_req;
        content = encode_atm (record {
          modified_map = m;
          addrs = keys_of cdm.received_new_account_state;
          account_state = values_of cdm.received_new_account_state;
          at_id = length cdm.modified_map;
        });
        req_time = now;
      },
    )
