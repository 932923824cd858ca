-- ===== src/Pbft/Clpa/Outside.antt =====
-- consensus_shard/pbft_all/pbftOutside_moduleCLPA.go: the messages from outside the shard.
use utxo_block_emulator.Base.{
  ℕ, ◌-◌, [], ◌∷◌, ◌++◌, true, nat_eq, ◌==◌, if◌then◌else◌, length, leb, ◌&&◌,
}
use utxo_block_emulator.Base.GoMap
use utxo_block_emulator.Core.Transaction.{transaction_timed}
use utxo_block_emulator.Core.TxPool
use utxo_block_emulator.Message.{Relay, InjectTxs}
use utxo_block_emulator.Chain.Blockchain.{Env}
use utxo_block_emulator.Pbft.Clpa.{
  PartitionModifiedMap, PartitionReady, AccountStateAndTx, ClpaNode,
}
use utxo_block_emulator.Pbft.Clpa.Transfer.{with_cdm, with_chain}

pub data ClpaOutsideMsg : Type 0 where
  clpa_relays : Relay → ClpaOutsideMsg
  clpa_injects : InjectTxs → ClpaOutsideMsg
  partition_msg : PartitionModifiedMap → ClpaOutsideMsg
  account_state_and_tx : AccountStateAndTx → ClpaOutsideMsg
  partition_is_ready : PartitionReady → ClpaOutsideMsg
  clpa_unknown : ClpaOutsideMsg

module _ (E : Env) (clock : ℕ → ℕ) where
  unfoldable pub handle_clpa_relay : Relay → ClpaNode E → ClpaNode E
  handle_clpa_relay relay n =
      record (with_chain E
        (record n.cur_chain.chain {
          tx_pool = TxPool.add_txs_to_pool clock relay.txs n.cur_chain.chain.tx_pool;
        })
        n) { seq_id_map = GoMap.insert relay.sender_shard_id relay.sender_seq n.seq_id_map }

  unfoldable pub handle_clpa_inject_tx : InjectTxs → ClpaNode E → ClpaNode E
  handle_clpa_inject_tx it n =
      with_chain E
        (record n.cur_chain.chain {
          tx_pool = TxPool.add_txs_to_pool clock it.txs n.cur_chain.chain.tx_pool;
        })
        n

  unfoldable pub handle_partition_msg : PartitionModifiedMap → ClpaNode E → ClpaNode E
  handle_partition_msg pm n =
      with_cdm E
        (record n.cur_chain.cdm {
          modified_map = n.cur_chain.cdm.modified_map ++ (pm.partition_modified ∷ []);
          partition_on = true;
        })
        n

  unfoldable pub handle_partition_ready : PartitionReady → ClpaNode E → ClpaNode E
  handle_partition_ready pr n =
      with_cdm E
        (record n.cur_chain.cdm {
          partition_ready = GoMap.insert pr.from_shard true n.cur_chain.cdm.partition_ready;
          ready_seq = GoMap.insert pr.from_shard pr.now_seq_id n.cur_chain.cdm.ready_seq;
        })
        n

  -- `int(ShardNums) - 1` is -1, and no length, where there are no shards.
  unfoldable pub handle_account_state_and_tx : AccountStateAndTx → ClpaNode E → ClpaNode E
  handle_account_state_and_tx at n =
      let pool = GoMap.insert at.from_shard at n.cur_chain.cdm.account_state_tx in
      let nums = n.cur_chain.chain.config.shard_nums in
      with_cdm E
        (record n.cur_chain.cdm {
          account_state_tx = pool;
          collect_over =
              if leb 1 nums && length pool == nums - 1 then true else n.cur_chain.cdm.collect_over;
        })
        n

  unfoldable pub handle_clpa_message_outside : ClpaOutsideMsg → ClpaNode E → ClpaNode E
  unfolding handle_clpa_relay handle_clpa_inject_tx handle_partition_msg handle_partition_ready
      handle_account_state_and_tx
  handle_clpa_message_outside (clpa_relays relay) n = handle_clpa_relay relay n
  handle_clpa_message_outside (clpa_injects it) n = handle_clpa_inject_tx it n
  handle_clpa_message_outside (partition_msg pm) n = handle_partition_msg pm n
  handle_clpa_message_outside (account_state_and_tx at) n = handle_account_state_and_tx at n
  handle_clpa_message_outside (partition_is_ready pr) n = handle_partition_ready pr n
  handle_clpa_message_outside clpa_unknown n = n
