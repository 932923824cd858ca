-- ===== src/Pbft/Clpa/Transfer.antt =====
-- consensus_shard/pbft_all/accountTransfer_module.go: the rounds in which accounts change their shard. The
-- locks of the data are released at once, so each function is atomic.
use utxo_block_emulator.Base.{
  ℕ, zero, suc, List, [], ◌∷◌, ◌++◌, Bool, true, false, not, ◌&&◌, ◌||◌, none, some, Bytes,
  bytes_eq, nat_eq, ◌==◌, if◌then◌else◌, length, get_elem?, set, take, sub_u64,
}
use utxo_block_emulator.Base.GoMap
use utxo_block_emulator.Base.GoMap.{GoMap}
use utxo_block_emulator.Base.Outcome.{Outcome, ok, panic, or_panic, ◌>>=◌}
use utxo_block_emulator.Core.Account.{AccountState}
use utxo_block_emulator.Core.Transaction.{Transaction, transaction_timed}
use utxo_block_emulator.Core.TxPool
use utxo_block_emulator.Message.{Request}
use utxo_block_emulator.Chain.Blockchain.{Env, BlockChain, shard_of_addr, update_partition_map}
use utxo_block_emulator.Chain.Blockchain.Accounts.{fetch_accounts, add_accounts}
use utxo_block_emulator.Pbft.Clpa.{
  AccountTransferMsg, PartitionReady, AccountStateAndTx, DataSupportClpa, ClpaNode, ClpaOut,
  partition_ready_to, accounts_to, partition_req,
}

-- The loop over the shards, from `sid`.
unfoldable pub ready_to_others : PartitionReady → (rounds sid : ℕ) → List ClpaOut
ready_to_others pr zero sid = []
ready_to_others pr (suc rounds) sid =
    let rest = ready_to_others pr rounds (suc sid) in
    if sid == pr.from_shard then rest else partition_ready_to sid pr ∷ rest

-- Every shard that has sent transactions has said that it is ready, at the sequence id after the last
-- one with which it sent.
unfoldable pub all_ready : GoMap ℕ ℕ → GoMap ℕ ℕ → Bool
all_ready [] ready_seq = true
all_ready ((sid, val) ∷ rest) ready_seq =
    let others = all_ready rest ready_seq in
    elim (GoMap.lookup sid ready_seq) [ none ↦ false | some rval ↦ sub_u64 rval 1 == val && others ]

abbrev pub contains : List Bytes → Bytes → Bool
contains [] x = false
contains (y ∷ ys) x = y == x || contains ys x

-- The accounts of this shard that the map moves away.
unfoldable pub accounts_to_fetch :
    (partition : Bytes → Outcome ℕ) (shard_id : ℕ) → GoMap Bytes ℕ → Outcome (List Bytes)
accounts_to_fetch partition shard_id [] = ok []
accounts_to_fetch partition shard_id ((key, val) ∷ rest) = do
  here ← if val == shard_id then ok false else (do p ← partition key; ok (p == shard_id))
  addrs ← accounts_to_fetch partition shard_id rest
  ok (if here then key ∷ addrs else addrs)

-- The accounts that go to shard `i`, with their states; `FetchAccounts` yields a state for each address.
unfoldable pub select_accounts :
    GoMap Bytes ℕ → (i : ℕ) → List Bytes → List AccountState → List Bytes × List AccountState
select_accounts m i [] states = ([], [])
select_accounts m i (a ∷ addrs) [] = ([], [])
select_accounts m i (a ∷ addrs) (s ∷ states) =
    let rest = select_accounts m i addrs states in
    if GoMap.get_or a 0 m == i then (a ∷ rest.0, s ∷ rest.1) else rest

-- `condition1 || condition2`
abbrev pub goes_along : List Bytes → Transaction → Bool
goes_along addr_set tx =
    contains addr_set tx.sender && not tx.relayed || contains addr_set tx.recipient && tx.relayed

-- The loop over the queue with two places in it: those it keeps move to the front.
unfoldable pub compact :
    (goes : Transaction → Bool) (rounds second first : ℕ)
    → List Transaction
    → List Transaction
    → List Transaction × List Transaction
compact goes zero second first queue tx_send = (take first queue, tx_send)
compact goes (suc rounds) second first queue tx_send = elim (get_elem? queue second) [
  | none ↦ (take first queue, tx_send)
  | some ptx ↦
      let went = compact goes rounds (suc second) first queue (tx_send ++ (ptx ∷ [])) in
      let stayed = compact goes rounds (suc second) (suc first) (set queue first ptx) tx_send in
      if goes ptx then went else stayed
]

-- The loop over the shards, from `i`: the queue that is left, and the messages.
unfoldable pub send_to_shards :
    (m : GoMap Bytes ℕ) (shard_id : ℕ) (addrs : List Bytes) (states : List AccountState)
    (rounds i : ℕ)
    → List Transaction
    → List Transaction × List ClpaOut
unfolding select_accounts compact
send_to_shards m shard_id addrs states zero i queue = (queue, [])
send_to_shards m shard_id addrs states (suc rounds) i queue =
    let skipped = send_to_shards m shard_id addrs states rounds (suc i) queue in
    let (addr_send, as_send) = select_accounts m i addrs states in
    let (left, tx_send) = compact (goes_along addr_send) (length queue) 0 0 queue [] in
    let (last, outs) = send_to_shards m shard_id addrs states rounds (suc i) left in
    if i == shard_id then skipped else (
      last,
      accounts_to i (record {
        addrs = addr_send;
        account_state = as_send;
        txs = tx_send;
        from_shard = shard_id;
      })
          ∷ outs,
    )

-- `cdm.ReceivedNewAccountState[addr] = at.AccountState[i]`
unfoldable pub receive_states :
    List Bytes → List AccountState → GoMap Bytes AccountState → Outcome (GoMap Bytes AccountState)
receive_states [] states m = ok m
receive_states (a ∷ addrs) [] m = panic
receive_states (a ∷ addrs) (s ∷ states) m = receive_states addrs states (GoMap.insert a s m)

unfoldable pub receive_all : GoMap ℕ AccountStateAndTx → DataSupportClpa → Outcome DataSupportClpa
unfolding receive_states
receive_all [] cdm = ok cdm
receive_all ((_, at) ∷ rest) cdm = do
  m ← receive_states at.addrs at.account_state cdm.received_new_account_state
  receive_all rest (record cdm {
    received_new_account_state = m;
    received_new_tx = cdm.received_new_tx ++ at.txs;
  })

-- The account that decides the shard of a transaction.
abbrev pub decisive : Transaction → Bytes
decisive tx = if tx.relayed then tx.recipient else tx.sender

-- A transaction that the map does not move to this shard panics, and so does a map out of range.
unfoldable pub check_txs :
    (maps : List (GoMap Bytes ℕ)) (round shard_id : ℕ) → List Transaction → Outcome (Unit {0})
check_txs maps round shard_id [] = ok tt
check_txs maps round shard_id (tx ∷ txs) = do
  m ← or_panic (get_elem? maps round)
  (if GoMap.get_or (decisive tx) 0 m == shard_id then check_txs maps round shard_id txs else panic)

abbrev pub keys_of : GoMap Bytes AccountState → List Bytes
keys_of [] = []
keys_of ((k, _) ∷ rest) = k ∷ keys_of rest

abbrev pub values_of : GoMap Bytes AccountState → List AccountState
values_of [] = []
values_of ((_, s) ∷ rest) = s ∷ values_of rest

-- The map of the last round.
abbrev pub last_map : List (GoMap Bytes ℕ) → Outcome (GoMap Bytes ℕ)
last_map [] = panic
last_map (m ∷ []) = ok m
last_map (m ∷ k ∷ ms) = last_map (k ∷ ms)

module _ (E : Env) where
  abbrev pub with_cdm : DataSupportClpa → ClpaNode E → ClpaNode E
  with_cdm cdm n = record n { cur_chain = record n.cur_chain { cdm = cdm } }

  abbrev pub with_chain : BlockChain E → ClpaNode E → ClpaNode E
  with_chain chain n = record n { cur_chain = record n.cur_chain { chain = chain } }

  unfoldable pub send_partition_ready : ClpaNode E → ClpaNode E × List ClpaOut
  unfolding ready_to_others
  send_partition_ready n =
      let cdm = n.cur_chain.cdm in
      (
        with_cdm (record cdm { partition_ready = GoMap.insert n.shard_id true cdm.partition_ready })
            n,
        ready_to_others (record { from_shard = n.shard_id; now_seq_id = n.sequence_id })
            n.cur_chain.chain.config.shard_nums 0,
      )

  unfoldable pub get_partition_ready : ClpaNode E → Bool
  unfolding all_ready
  get_partition_ready n =
      length n.cur_chain.cdm.partition_ready == n.cur_chain.chain.config.shard_nums
      && all_ready n.seq_id_map n.cur_chain.cdm.ready_seq

  unfoldable pub send_accounts_and_txs : ClpaNode E → Outcome (ClpaNode E × List ClpaOut)
  unfolding accounts_to_fetch send_to_shards
  send_accounts_and_txs n = do
    m ← last_map n.cur_chain.cdm.modified_map
    addrs ← accounts_to_fetch (shard_of_addr E n.cur_chain.chain) n.shard_id m
    states ← fetch_accounts E addrs n.cur_chain.chain
    let (queue, outs) =
          send_to_shards m n.shard_id addrs states n.cur_chain.chain.config.shard_nums 0
            n.cur_chain.chain.tx_pool.tx_queue in
        ok (
          with_chain
              (record n.cur_chain.chain {
                tx_pool = record n.cur_chain.chain.tx_pool { tx_queue = queue };
              })
              n,
          outs,
        )

  -- `encode_atm` is the gob encoding; `clock` and `now` are readings of the clock.
  unfoldable pub propose_partition :
      (encode_atm : AccountTransferMsg → Bytes) (clock : ℕ → ℕ) (now : ℕ)
      → ClpaNode E
      → Outcome (ClpaNode E × Request)
  unfolding receive_all check_txs
  propose_partition encode_atm clock now n = do
    cdm ← receive_all n.cur_chain.cdm.account_state_tx n.cur_chain.cdm
    _ ← check_txs cdm.modified_map cdm.account_transfer_round n.shard_id cdm.received_new_tx
    m ← or_panic (get_elem? cdm.modified_map cdm.account_transfer_round)
    ok (
      record n {
        cur_chain = record {
          chain = record n.cur_chain.chain {
            tx_pool = TxPool.add_txs_to_pool clock cdm.received_new_tx n.cur_chain.chain.tx_pool;
          };
          cdm = cdm;
        };
      },
      record {
        request_type = partition_req;
        content = encode_atm (record {
          modified_map = m;
          addrs = keys_of cdm.received_new_account_state;
          account_state = values_of cdm.received_new_account_state;
          at_id = length cdm.modified_map;
        });
        req_time = now;
      },
    )

  unfoldable pub update_partition : GoMap Bytes ℕ → BlockChain E → BlockChain E
  unfolding update_partition_map
  update_partition [] bc = bc
  update_partition ((key, val) ∷ rest) bc =
      update_partition rest (update_partition_map E key val bc)

  -- The data of a round are emptied.
  abbrev pub end_round : AccountTransferMsg → DataSupportClpa → DataSupportClpa
  end_round atm cdm = record cdm {
    modified_map =
        if length cdm.modified_map == atm.at_id
        then cdm.modified_map
        else cdm.modified_map ++ (atm.modified_map ∷ []);
    account_transfer_round = atm.at_id;
    account_state_tx = [];
    received_new_account_state = [];
    received_new_tx = [];
    partition_on = false;
    collect_over = false;
    partition_ready = [];
  }

  unfoldable pub account_transfer_do : AccountTransferMsg → ClpaNode E → Outcome (ClpaNode E)
  unfolding update_partition add_accounts
  account_transfer_do atm n = do
    chain ←
        add_accounts E atm.addrs atm.account_state
          (update_partition atm.modified_map n.cur_chain.chain)
    ok (record n { cur_chain = record { chain = chain; cdm = end_round atm n.cur_chain.cdm } })
