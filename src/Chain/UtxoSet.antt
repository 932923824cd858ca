-- ===== src/Chain/UtxoSet.antt =====
-- chain/utxo_set.go, the part on the bolt bucket `utxo`, which maps a transaction's id to the list of
-- its outputs (gob encoded; a read of nothing is decoded too, which panics).
pub mod Drift
pub mod Spendable
use utxo_block_emulator.Base.{
  ℕ, zero, suc, List, [], ◌∷◌, ◌++◌, Bool, true, false, ◌&&◌, Option, none, some, Bytes, bytes_eq,
  nat_eq, ◌==◌, if◌then◌else◌,
}
use utxo_block_emulator.Base.Int.{ℤ, pos, ◌+ℤ◌, ltb_ℤ, int_eq}
use utxo_block_emulator.Base.GoMap.{GoMap}
use utxo_block_emulator.Base.Outcome.{Outcome, ok, panic, ◌>>=◌}
use utxo_block_emulator.Core.Block.{Block}
use utxo_block_emulator.Core.UtxoTransaction.{UtxoTransaction, TxIn, TxOut, is_coinbase}
use utxo_block_emulator.Chain.StatusTrie.{enter}
use utxo_block_emulator.Chain.Bucket.{Bucket, put_or_panic}

-- The loop that drops the output at an index and keeps the rest; `i` is the index of the first.
unfoldable pub without_index : ℤ → ℕ → List TxOut → List TxOut
without_index index i [] = []
without_index index i (o ∷ os) =
    let rest = without_index index (suc i) os in if pos i == index then rest else o ∷ rest

module _ (B : Bucket (List TxOut)) where
  -- What is left is stored, unless it is empty.
  unfoldable pub store_outputs : B.Store → Bytes → List TxOut → Outcome B.Store
  unfolding put_or_panic
  store_outputs s txid [] = ok (B.delete s txid)
  store_outputs s txid (o ∷ os) = put_or_panic B s txid (o ∷ os)

  unfoldable pub spend_input : B.Store → TxIn → Outcome B.Store
  unfolding without_index store_outputs
  spend_input s vin = elim (B.get s vin.prev_tx_id) [
    | none ↦ panic
    | some outs ↦ store_outputs s vin.prev_tx_id (without_index vin.index 0 outs)
  ]

  unfoldable pub spend_inputs : B.Store → List TxIn → Outcome B.Store
  unfolding spend_input
  spend_inputs s [] = ok s
  spend_inputs s (vin ∷ vins) = do s' ← spend_input s vin; spend_inputs s' vins

  -- `UpdateUTXOSet`: a coinbase transaction is passed over.
  unfoldable pub update_with_tx : B.Store → UtxoTransaction → Outcome B.Store
  unfolding spend_inputs is_coinbase put_or_panic
  update_with_tx s tx = elim (is_coinbase tx) [
    | true ↦ ok s
    | false ↦ (do s' ← spend_inputs s tx.vin; put_or_panic B s' tx.tx_id tx.vout)
  ]

  unfoldable pub update_with_txs : B.Store → List UtxoTransaction → Outcome B.Store
  unfolding update_with_tx
  update_with_txs s [] = ok s
  update_with_txs s (tx ∷ txs) = do s' ← update_with_tx s tx; update_with_txs s' txs

  unfoldable pub update_utxo_set : B.Store → Block → Outcome B.Store
  unfolding update_with_txs
  update_utxo_set s block = update_with_txs s block.utxo

  -- `AddTx2UTXOSet`: a coinbase transaction spends nothing, and its outputs are entered.
  unfoldable pub add_tx_to_utxo_set : B.Store → Option UtxoTransaction → Outcome B.Store
  unfolding spend_inputs is_coinbase put_or_panic
  add_tx_to_utxo_set s none = ok s
  add_tx_to_utxo_set s (some tx) = do
    s' ← elim (is_coinbase tx) [ true ↦ ok s | false ↦ spend_inputs s tx.vin ]
    put_or_panic B s' tx.tx_id tx.vout

-- `FindSpendableOutputs`: one stored transaction, from the sum so far and the indices taken.
unfoldable pub scan_outputs : Bytes → ℤ → ℤ → List ℤ → ℕ → List TxOut → ℤ × List ℤ
scan_outputs k amount acc ids i [] = (acc, ids)
scan_outputs k amount acc ids i (o ∷ os) =
    let take = k == o.pubkey_hash && ltb_ℤ acc amount in
    scan_outputs k amount (if take then acc +ℤ o.value else acc)
      (if take then ids ++ (pos i ∷ []) else ids) (suc i) os

unfoldable pub scan_bucket : Bytes → ℤ → ℤ → List (Bytes × List TxOut) → ℤ × GoMap Bytes (List ℤ)
unfolding scan_outputs
scan_bucket k amount acc [] = (acc, [])
scan_bucket k amount acc ((txid, outs) ∷ rest) =
    let (acc', ids) = scan_outputs k amount acc [] 0 outs in
    let (acc'', found) = scan_bucket k amount acc' rest in (acc'', enter txid ids found)

module _ (B : Bucket (List TxOut)) where
  unfoldable pub find_spendable_outputs : B.Store → Bytes → ℤ → ℤ × GoMap Bytes (List ℤ)
  unfolding scan_bucket
  find_spendable_outputs s k amount = scan_bucket k amount (pos 0) (B.cursor s)
