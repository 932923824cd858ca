-- ===== src/Pbft/Modules/Outside.antt =====
-- consensus_shard/pbft_all/pbftOutside_module.go, pbftOutside_module_utxo.go, pbftOutside_moduleBroker.go: the messages from outside
-- the shard: transactions that other shards relay, and those that the supervisor injects.
use utxo_block_emulator.Base.{ℕ, suc, List, [], ◌∷◌, ◌++◌, some, Bytes, nat_eq}
use utxo_block_emulator.Base.GoMap
use utxo_block_emulator.Core.Transaction.{transaction_timed}
use utxo_block_emulator.Core.UtxoTransaction.{
  UtxoTransaction, TxOut, new_coinbase_tx, utxo_transaction_timed,
}
use utxo_block_emulator.Core.TxPool
use utxo_block_emulator.Message.{Relay, RelayUtxo, InjectTxs, SeqIdInfo}
use utxo_block_emulator.Chain.Blockchain.{Env, BlockChain}
use utxo_block_emulator.Pbft.{Node}

-- The message types that the modules know; any other is passed over.
pub data OutsideMsg (R : Type 0) : Type 0 where
  relays : R → OutsideMsg R
  injects : InjectTxs → OutsideMsg R
  unknown : OutsideMsg R

-- `nonces` yields the random nonces, in the order in which the coinbase transactions are made.
module _ (hash : UtxoTransaction → Bytes) where
  -- One coinbase transaction for each output, under the hash of the relayed transaction.
  unfoldable pub coinbases_of : (nonces : ℕ → ℕ) → ℕ → Bytes → List TxOut → List UtxoTransaction
  unfolding new_coinbase_tx
  coinbases_of nonces i tx_hash [] = []
  coinbases_of nonces i tx_hash (out ∷ outs) =
      new_coinbase_tx hash (nonces i) out.pubkey_hash out.value (some tx_hash)
      ∷ coinbases_of nonces (suc i) tx_hash outs

  -- `nonces i` are the nonces for the i-th transaction.
  unfoldable pub relayed_coinbases :
      (nonces : ℕ → ℕ → ℕ) → ℕ → List UtxoTransaction → List UtxoTransaction
  unfolding coinbases_of
  relayed_coinbases nonces i [] = []
  relayed_coinbases nonces i (tx ∷ txs) =
      coinbases_of (nonces i) 0 tx.tx_hash tx.vout ++ relayed_coinbases nonces (suc i) txs

module _ (E : Env) (clock : ℕ → ℕ) where
  unfoldable pub handle_relay : Relay → Node (BlockChain E) → Node (BlockChain E)
  handle_relay relay n = record n {
    cur_chain = record n.cur_chain {
      tx_pool = TxPool.add_txs_to_pool clock relay.txs n.cur_chain.tx_pool;
    };
    seq_id_map = GoMap.insert relay.sender_shard_id relay.sender_seq n.seq_id_map;
  }

  -- Both modules put injected transactions into `Txpool`.
  unfoldable pub handle_inject_tx : InjectTxs → Node (BlockChain E) → Node (BlockChain E)
  handle_inject_tx it n = record n {
    cur_chain = record n.cur_chain {
      tx_pool = TxPool.add_txs_to_pool clock it.txs n.cur_chain.tx_pool;
    };
  }

  unfoldable pub handle_message_outside :
      OutsideMsg Relay → Node (BlockChain E) → Node (BlockChain E)
  unfolding handle_relay handle_inject_tx
  handle_message_outside (relays relay) n = handle_relay relay n
  handle_message_outside (injects it) n = handle_inject_tx it n
  handle_message_outside unknown n = n

  module _ (hash : UtxoTransaction → Bytes) (nonces : ℕ → ℕ → ℕ) where
    unfoldable pub handle_utxo_relay : RelayUtxo → Node (BlockChain E) → Node (BlockChain E)
    unfolding relayed_coinbases
    handle_utxo_relay relay n = record n {
      cur_chain = record n.cur_chain {
        utxo_tx_pool =
            TxPool.add_txs_to_pool clock (relayed_coinbases hash nonces 0 relay.txs)
              n.cur_chain.utxo_tx_pool;
      };
      seq_id_map = GoMap.insert relay.sender_shard_id relay.sender_seq n.seq_id_map;
    }

    unfoldable pub handle_utxo_message_outside :
        OutsideMsg RelayUtxo → Node (BlockChain E) → Node (BlockChain E)
    unfolding handle_utxo_relay handle_inject_tx
    handle_utxo_message_outside (relays relay) n = handle_utxo_relay relay n
    handle_utxo_message_outside (injects it) n = handle_inject_tx it n
    handle_utxo_message_outside unknown n = n

-- The message types of the broker module.
pub data BrokerOutsideMsg : Type 0 where
  seq_id_infos : SeqIdInfo → BrokerOutsideMsg
  broker_injects : InjectTxs → BrokerOutsideMsg
  broker_unknown : BrokerOutsideMsg

module _ (E : Env) (clock : ℕ → ℕ) where
  unfoldable pub handle_seq_id_infos : SeqIdInfo → Node (BlockChain E) → Node (BlockChain E)
  handle_seq_id_infos sii n = record n {
    seq_id_map = GoMap.insert sii.sender_shard_id sii.sender_seq n.seq_id_map;
  }

  unfoldable pub handle_broker_message_outside :
      BrokerOutsideMsg → Node (BlockChain E) → Node (BlockChain E)
  unfolding handle_seq_id_infos handle_inject_tx
  handle_broker_message_outside (seq_id_infos sii) n = handle_seq_id_infos sii n
  handle_broker_message_outside (broker_injects it) n = handle_inject_tx E clock it n
  handle_broker_message_outside broker_unknown n = n
