-- ===== src/Core/UtxoTxPool.antt =====
-- core/utxo_txpool.go: the operations of core/txpool.go at `*UTXOTransaction`, word for word
-- (`TransferTxs` is commented out there).
use utxo_block_emulator.Base.{ℕ, List, Bool}
use utxo_block_emulator.Base.Outcome.{Outcome}
use utxo_block_emulator.Core.UtxoTransaction.{UtxoTransaction, utxo_transaction_timed}
use utxo_block_emulator.Core.TxPool
use utxo_block_emulator.Core.TxPool.{TxPool}

abbrev pub UtxoTxPool : Type 0
UtxoTxPool = TxPool UtxoTransaction

abbrev pub new_utxo_tx_pool : UtxoTxPool
new_utxo_tx_pool = TxPool.new_tx_pool

abbrev pub utxo_add_tx_to_pool : ℕ → UtxoTransaction → UtxoTxPool → UtxoTxPool
utxo_add_tx_to_pool now tx p = TxPool.add_tx_to_pool now tx p

abbrev pub utxo_add_txs_to_pool : (ℕ → ℕ) → List UtxoTransaction → UtxoTxPool → UtxoTxPool
utxo_add_txs_to_pool clock txs p = TxPool.add_txs_to_pool clock txs p

abbrev pub utxo_add_txs_to_pool_head : List UtxoTransaction → UtxoTxPool → UtxoTxPool
utxo_add_txs_to_pool_head txs p = TxPool.add_txs_to_pool_head txs p

abbrev pub utxo_pack_txs : ℕ → UtxoTxPool → List UtxoTransaction × UtxoTxPool
utxo_pack_txs max_txs p = TxPool.pack_txs max_txs p

abbrev pub utxo_add_relay_tx : UtxoTransaction → ℕ → UtxoTxPool → Outcome UtxoTxPool
utxo_add_relay_tx tx shard p = TxPool.add_relay_tx tx shard p

abbrev pub utxo_get_tx_queue_len : UtxoTxPool → ℕ
utxo_get_tx_queue_len p = TxPool.get_tx_queue_len p

abbrev pub utxo_clear_relay_pool : UtxoTxPool → UtxoTxPool
utxo_clear_relay_pool p = TxPool.clear_relay_pool p

abbrev pub utxo_pack_relay_txs : ℕ → ℕ → ℕ → UtxoTxPool → (List UtxoTransaction × Bool) × UtxoTxPool
utxo_pack_relay_txs shard min_size max_size p = TxPool.pack_relay_txs shard min_size max_size p
