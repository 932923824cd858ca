-- ===== src/Pbft/Clpa/Taken.antt =====
-- consensus_shard/pbft_all/accountTransfer_module.go, `proposePartition`: the main node that has collected the
-- messages of the other shards.
use utxo_block_emulator.Base.{
  ℕ, ◌≡◌, refl, sym, ap, ◌∙◌, subst, arith, List, [], ◌∷◌, ◌++◌, some, All, length, append-nil,
  append_assoc, get_elem?, Bytes, All-append, bytes_eq, ◌==◌, if◌then◌else◌, Option, suc,
}
use utxo_block_emulator.Base.GoMap
use utxo_block_emulator.Base.GoMap.{GoMap, lookup-insert}
use utxo_block_emulator.Base.Outcome.{or_panic, Yields, Yields-bind, Yields-after}
use utxo_block_emulator.Core.Account.{AccountState}
use utxo_block_emulator.Core.Transaction.{Transaction, transaction_timed}
use utxo_block_emulator.Core.TxPool
use utxo_block_emulator.Chain.Blockchain.{Env}
use utxo_block_emulator.Pbft.Clpa.{
  AccountTransferMsg, AccountStateAndTx, DataSupportClpa, ClpaNode, partition_req,
}
use utxo_block_emulator.Pbft.Clpa.Transfer.{
  decisive, receive_states, receive_all, check_txs, propose_partition, keys_of, values_of,
}
use utxo_block_emulator.Pbft.Clpa.Moves.{check_txs-IsFor}

abbrev pub txs_of : GoMap ℕ AccountStateAndTx → List Transaction
txs_of [] = []
txs_of ((_, at) ∷ rest) = at.txs ++ txs_of rest

-- A message has a state for each account, and its transactions are for the shard.
abbrev pub IsTakable : GoMap Bytes ℕ → ℕ → AccountStateAndTx → Type 0
IsTakable m i at =
    (length at.addrs ≡ length at.account_state)
    × All (λ tx. GoMap.get_or (decisive tx) 0 m ≡ i) at.txs

-- The state that came last for an account in two lists, or else the one it had.
abbrev pub latest :
    List Bytes → List AccountState → Bytes → Option AccountState → Option AccountState
latest [] states k old = old
latest (a ∷ addrs) [] k old = old
latest (a ∷ addrs) (s ∷ states) k old = latest addrs states k (if a == k then some s else old)

-- The same over the messages of a pool.
abbrev pub latest_of : GoMap ℕ AccountStateAndTx → Bytes → Option AccountState → Option AccountState
latest_of [] k old = old
latest_of ((_, at) ∷ pool) k old = latest_of pool k (latest at.addrs at.account_state k old)

-- Two lists of one length as a table.
abbrev pub paired : List Bytes → List AccountState → GoMap Bytes AccountState
paired [] states = []
paired (a ∷ addrs) [] = []
paired (a ∷ addrs) (s ∷ states) = (a, s) ∷ paired addrs states

paired-keys_of : (m : GoMap Bytes AccountState) → paired (keys_of m) (values_of m) ≡ m
paired-keys_of [] = refl
paired-keys_of ((k, s) ∷ m) = ap (◌∷◌ (k, s)) (paired-keys_of m)

keys_of-length : (m : GoMap Bytes AccountState) → length (keys_of m) ≡ length (values_of m)
keys_of-length [] = refl
keys_of-length (_ ∷ m) = ap suc (keys_of-length m)

receive_states-Yields :
    (addrs : List Bytes) (states : List AccountState) (m : GoMap Bytes AccountState)
    → length addrs ≡ length states
    → Yields
        (λ m'. (k : Bytes) → GoMap.lookup k m' ≡ latest addrs states k (GoMap.lookup k m))
        (receive_states addrs states m)
unfolding receive_states
receive_states-Yields [] states m h = (m, refl, λ k. refl)
receive_states-Yields (a ∷ addrs) [] m h = absurd (omega (arith, h))
receive_states-Yields (a ∷ addrs) (s ∷ states) m h =
    let (m', done, last) =
      receive_states-Yields addrs states (GoMap.insert a s m) (omega (arith, h)) in
    (m', done, λ k. last k ∙ ap (latest addrs states k) (lookup-insert a k s m))

record Received (pool : GoMap ℕ AccountStateAndTx) (cdm c : DataSupportClpa) : Type 0 where
  txs : c.received_new_tx ≡ cdm.received_new_tx ++ txs_of pool
  maps : c.modified_map ≡ cdm.modified_map
  round : c.account_transfer_round ≡ cdm.account_transfer_round
  states :
      (k : Bytes)
      → GoMap.lookup k c.received_new_account_state
        ≡ latest_of pool k (GoMap.lookup k cdm.received_new_account_state)

receive_all-Received :
    (m : GoMap Bytes ℕ) (i : ℕ) (pool : GoMap ℕ AccountStateAndTx) (cdm : DataSupportClpa)
    → All (λ e. IsTakable m i e.1) pool
    → Yields (Received pool cdm) (receive_all pool cdm)
unfolding receive_all
receive_all-Received m i [] cdm h = (
  cdm,
  refl,
  record {
    txs = sym (append-nil cdm.received_new_tx);
    maps = refl;
    round = refl;
    states = λ k. refl;
  },
)
receive_all-Received m i ((s, at) ∷ pool) cdm ((same, for), h) =
    Yields-bind (receive_states at.addrs at.account_state cdm.received_new_account_state) _
      (receive_states-Yields at.addrs at.account_state cdm.received_new_account_state same)
      (λ states last.
        let cdm' : DataSupportClpa = record cdm {
          received_new_account_state = states;
          received_new_tx = cdm.received_new_tx ++ at.txs;
        } in
        let (c, e, k) = receive_all-Received m i pool cdm' h in
        (
          c,
          e,
          record {
            txs = k.txs ∙ append_assoc cdm.received_new_tx at.txs (txs_of pool);
            maps = k.maps;
            round = k.round;
            states = λ j. k.states j ∙ ap (latest_of pool j) (last j);
          },
        ))

txs_of-IsFor :
    (m : GoMap Bytes ℕ) (i : ℕ) (pool : GoMap ℕ AccountStateAndTx)
    → All (λ e. IsTakable m i e.1) pool
    → All (λ tx. GoMap.get_or (decisive tx) 0 m ≡ i) (txs_of pool)
txs_of-IsFor m i [] h = tt
txs_of-IsFor m i ((s, at) ∷ pool) ((same, for), h) =
    All-append (λ tx. GoMap.get_or (decisive tx) 0 m ≡ i) at.txs (txs_of pool) for
      (txs_of-IsFor m i pool h)

module _ (E : Env) (encode_atm : AccountTransferMsg → Bytes) (clock : ℕ → ℕ) (now : ℕ) where
  -- A main node that has the map of the current round, and messages whose transactions the map puts into
  -- its shard, with a state for each account, and that has taken no transactions yet, does not panic in
  -- `proposePartition`: it appends the transactions of all messages to its pool, and proposes a partition
  -- request. This carries the current map, the number of the maps that the node has, and for every
  -- account the state that came last in the messages, or else the one that had been received before.
  pub propose_partition-takes :
      (n : ClpaNode E) (m : GoMap Bytes ℕ)
      → get_elem? n.cur_chain.cdm.modified_map n.cur_chain.cdm.account_transfer_round ≡ some m
      → n.cur_chain.cdm.received_new_tx ≡ []
      → All (λ e. IsTakable m n.shard_id e.1) n.cur_chain.cdm.account_state_tx
      → Yields
          (λ r.
            (r.0.cur_chain.chain.tx_pool
              ≡ TxPool.add_txs_to_pool clock
                  (txs_of n.cur_chain.cdm.account_state_tx)
                  n.cur_chain.chain.tx_pool)
            × ((atm : AccountTransferMsg) × (r.1 ≡ record {
              request_type = partition_req;
              content = encode_atm atm;
              req_time = now;
            })
                × (atm.modified_map ≡ m)
                × (atm.at_id ≡ length n.cur_chain.cdm.modified_map)
                × (length atm.addrs ≡ length atm.account_state)
                × ((k : Bytes)
                    → GoMap.lookup k (paired atm.addrs atm.account_state)
                      ≡ latest_of n.cur_chain.cdm.account_state_tx k
                          (GoMap.lookup k n.cur_chain.cdm.received_new_account_state))))
          (propose_partition E encode_atm clock now n)
  unfolding propose_partition
  propose_partition-takes n m found none_yet h =
      Yields-bind (receive_all n.cur_chain.cdm.account_state_tx n.cur_chain.cdm) _
        (receive_all-Received m n.shard_id n.cur_chain.cdm.account_state_tx n.cur_chain.cdm h)
        (λ cdm k.
          let current : get_elem? cdm.modified_map cdm.account_transfer_round ≡ some m =
            ap (λ x. get_elem? x cdm.account_transfer_round) k.maps
            ∙ ap (get_elem? n.cur_chain.cdm.modified_map) k.round
            ∙ found in
          let txs : cdm.received_new_tx ≡ txs_of n.cur_chain.cdm.account_state_tx =
            k.txs ∙ ap (λ l. l ++ txs_of n.cur_chain.cdm.account_state_tx) none_yet in
          Yields-after
            (check_txs cdm.modified_map cdm.account_transfer_round n.shard_id cdm.received_new_tx) _
            (check_txs-IsFor cdm.modified_map cdm.account_transfer_round n.shard_id m
              cdm.received_new_tx current
              (subst (All (λ tx. GoMap.get_or (decisive tx) 0 m ≡ n.shard_id)) (sym txs)
                (txs_of-IsFor m n.shard_id n.cur_chain.cdm.account_state_tx h)))
            (Yields-after (or_panic (get_elem? cdm.modified_map cdm.account_transfer_round)) _
              (ap or_panic current)
              (
                _,
                refl,
                (
                  ap (λ l. TxPool.add_txs_to_pool clock l n.cur_chain.chain.tx_pool) txs,
                  (
                    _,
                    refl,
                    refl,
                    ap length k.maps,
                    keys_of-length cdm.received_new_account_state,
                    λ j.
                        ap (GoMap.lookup j) (paired-keys_of cdm.received_new_account_state)
                        ∙ k.states j,
                  ),
                ),
              )))
