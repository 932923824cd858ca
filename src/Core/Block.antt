-- ===== src/Core/Block.antt =====
-- core/block.go. `hash` stands for SHA-256 of the gob encoding of a header.
use utxo_block_emulator.Base.{ℕ, Bytes, List, []}
use utxo_block_emulator.Core.Transaction.{Transaction}
use utxo_block_emulator.Core.UtxoTransaction.{UtxoTransaction}

pub record BlockHeader : Type 0 where
  pub parent_block_hash : Bytes
  pub state_root : Bytes
  pub tx_root : Bytes
  pub number : ℕ
  pub time : ℕ
  pub miner : ℕ

pub record Block : Type 0 where
  pub header : BlockHeader
  pub body : List Transaction
  pub utxo : List UtxoTransaction
  pub hash : Bytes

unfoldable pub new_block : BlockHeader → List Transaction → List UtxoTransaction → Block
new_block bh txs utxos = record { header = bh; body = txs; utxo = utxos; hash = [] }
