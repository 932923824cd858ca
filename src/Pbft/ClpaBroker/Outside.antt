-- ===== src/Pbft/ClpaBroker/Outside.antt =====
-- consensus_shard/pbft_all/pbftOutside_modCLPABroker.go: the messages from outside the shard. All but the sequence
-- ids are handled as in Pbft/Clpa/Outside.
use utxo_block_emulator.Base.{ℕ, nat_eq}
use utxo_block_emulator.Base.GoMap
use utxo_block_emulator.Message.{InjectTxs, SeqIdInfo}
use utxo_block_emulator.Chain.Blockchain.{Env}
use utxo_block_emulator.Pbft.Clpa.{
  PartitionModifiedMap, PartitionReady, AccountStateAndTx, ClpaNode,
}
use utxo_block_emulator.Pbft.Clpa.Outside.{
  handle_clpa_inject_tx, handle_partition_msg, handle_partition_ready, handle_account_state_and_tx,
}

pub data ClpaBrokerOutsideMsg : Type 0 where
  clpa_seq_id_infos : SeqIdInfo → ClpaBrokerOutsideMsg
  clpa_broker_injects : InjectTxs → ClpaBrokerOutsideMsg
  broker_partition_msg : PartitionModifiedMap → ClpaBrokerOutsideMsg
  broker_account_state_and_tx : AccountStateAndTx → ClpaBrokerOutsideMsg
  broker_partition_is_ready : PartitionReady → ClpaBrokerOutsideMsg
  clpa_broker_unknown : ClpaBrokerOutsideMsg

module _ (E : Env) (clock : ℕ → ℕ) where
  unfoldable pub handle_clpa_seq_id_infos : SeqIdInfo → ClpaNode E → ClpaNode E
  handle_clpa_seq_id_infos sii n = record n {
    seq_id_map = GoMap.insert sii.sender_shard_id sii.sender_seq n.seq_id_map;
  }

  abbrev pub handle_broker_inject_tx : InjectTxs → ClpaNode E → ClpaNode E
  handle_broker_inject_tx it n = handle_clpa_inject_tx E clock it n

  abbrev pub handle_broker_partition_msg : PartitionModifiedMap → ClpaNode E → ClpaNode E
  handle_broker_partition_msg pm n = handle_partition_msg E clock pm n

  abbrev pub handle_broker_partition_ready : PartitionReady → ClpaNode E → ClpaNode E
  handle_broker_partition_ready pr n = handle_partition_ready E clock pr n

  abbrev pub handle_broker_account_state_and_tx : AccountStateAndTx → ClpaNode E → ClpaNode E
  handle_broker_account_state_and_tx at n = handle_account_state_and_tx E clock at n

  unfoldable pub handle_clpa_broker_message_outside : ClpaBrokerOutsideMsg → ClpaNode E → ClpaNode E
  unfolding handle_clpa_seq_id_infos
  handle_clpa_broker_message_outside (clpa_seq_id_infos sii) n = handle_clpa_seq_id_infos sii n
  handle_clpa_broker_message_outside (clpa_broker_injects it) n = handle_broker_inject_tx it n
  handle_clpa_broker_message_outside (broker_partition_msg pm) n = handle_broker_partition_msg pm n
  handle_clpa_broker_message_outside (broker_account_state_and_tx at) n =
      handle_broker_account_state_and_tx at n
  handle_clpa_broker_message_outside (broker_partition_is_ready pr) n =
      handle_broker_partition_ready pr n
  handle_clpa_broker_message_outside clpa_broker_unknown n = n
