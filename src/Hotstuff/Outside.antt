-- ===== src/Hotstuff/Outside.antt =====
-- consensus_shard/synchotstuff_all/OutsideModRelay.go: the messages from outside the shard.
use utxo_block_emulator.Base.{ℕ, Bytes, nat_eq}
use utxo_block_emulator.Base.GoMap
use utxo_block_emulator.Core.Transaction.{transaction_timed}
use utxo_block_emulator.Core.UtxoTransaction.{UtxoTransaction, utxo_transaction_timed}
use utxo_block_emulator.Core.TxPool
use utxo_block_emulator.Message.{RelayUtxo, InjectTxs}
use utxo_block_emulator.Chain.Blockchain.{Env, BlockChain}
use utxo_block_emulator.Pbft.Modules.Outside.{
  OutsideMsg, relays, injects, unknown, relayed_coinbases,
}
use utxo_block_emulator.Hotstuff.{HotstuffNode}

module _ (E : Env) (clock : ℕ → ℕ) (hash : UtxoTransaction → Bytes) (nonces : ℕ → ℕ → ℕ) where
  unfoldable pub receive_relay :
      RelayUtxo → HotstuffNode (BlockChain E) → HotstuffNode (BlockChain E)
  unfolding relayed_coinbases
  receive_relay relay n = record n {
    cur_chain = record n.cur_chain {
      utxo_tx_pool =
          TxPool.add_txs_to_pool clock (relayed_coinbases hash nonces 0 relay.txs)
            n.cur_chain.utxo_tx_pool;
    };
    seq_id_map = GoMap.insert relay.sender_shard_id relay.sender_seq n.seq_id_map;
  }

  unfoldable pub receive_inject_tx :
      InjectTxs → HotstuffNode (BlockChain E) → HotstuffNode (BlockChain E)
  receive_inject_tx it n = record n {
    cur_chain = record n.cur_chain {
      tx_pool = TxPool.add_txs_to_pool clock it.txs n.cur_chain.tx_pool;
    };
  }

  unfoldable pub handle_message_outside_consensus :
      OutsideMsg RelayUtxo → HotstuffNode (BlockChain E) → HotstuffNode (BlockChain E)
  unfolding receive_relay receive_inject_tx
  handle_message_outside_consensus (relays relay) n = receive_relay relay n
  handle_message_outside_consensus (injects it) n = receive_inject_tx it n
  handle_message_outside_consensus unknown n = n
