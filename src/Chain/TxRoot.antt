-- ===== src/Chain/TxRoot.antt =====
-- chain/blockchain.go: the root of a block's transactions.
use utxo_block_emulator.Base.{List, [], ◌∷◌, Bytes}
use utxo_block_emulator.Core.Transaction.{Transaction}
use utxo_block_emulator.Core.UtxoTransaction.{UtxoTransaction}

-- What the roots ask of go-ethereum's trie over a database in memory.
pub record HashTrie : Type 1 where
  pub Trie : Type 0
  pub empty : Trie
  pub update : Bytes → Bytes → Trie → Trie
  pub hash : Trie → Bytes

-- `encode` is the gob encoding.
module _ (H : HashTrie) where
  unfoldable pub add_tx_leaves : (encode : Transaction → Bytes) → List Transaction → H.Trie → H.Trie
  add_tx_leaves encode [] t = t
  add_tx_leaves encode (tx ∷ txs) t = add_tx_leaves encode txs (H.update tx.tx_hash (encode tx) t)

  unfoldable pub get_tx_tree_root : (encode : Transaction → Bytes) → List Transaction → Bytes
  unfolding add_tx_leaves
  get_tx_tree_root encode txs = H.hash (add_tx_leaves encode txs H.empty)

  unfoldable pub add_utxo_tx_leaves :
      (encode : UtxoTransaction → Bytes) → List UtxoTransaction → H.Trie → H.Trie
  add_utxo_tx_leaves encode [] t = t
  add_utxo_tx_leaves encode (tx ∷ txs) t =
      add_utxo_tx_leaves encode txs (H.update tx.tx_hash (encode tx) t)

  unfoldable pub get_utxo_tx_tree_root :
      (encode : UtxoTransaction → Bytes) → List UtxoTransaction → Bytes
  unfolding add_utxo_tx_leaves
  get_utxo_tx_tree_root encode txs = H.hash (add_utxo_tx_leaves encode txs H.empty)
