-- ===== src/Chain/UtxoSet/Drift.antt =====
-- chain/utxo_set.go: an output is stored under no index but its place in the list, so spending one
-- moves those behind it.
use utxo_block_emulator.Base.{
  ℕ, zero, suc, ◌+◌, ◌≤◌, ◌<◌, List, [], ◌∷◌, true, false, Option, none, some, ◌≡◌, ◌≢◌, refl, sym,
  ap, ◌∙◌, Bytes, bytes_eq, nat_eq, ◌==◌, if◌then◌else◌, arith, length, eq_refl,
}
use utxo_block_emulator.Base.Int.{pos, int_eq}
use utxo_block_emulator.Base.Outcome.{ok, panic}
use utxo_block_emulator.Core.Block.{Block}
use utxo_block_emulator.Core.UtxoTransaction.{UtxoTransaction, TxIn, TxOut, is_coinbase}
use utxo_block_emulator.Chain.Bucket.{Bucket, put_or_panic}
use utxo_block_emulator.Chain.UtxoSet.{
  without_index, store_outputs, spend_input, spend_inputs, update_with_tx, update_with_txs,
  update_utxo_set,
}

-- The list without its n-th element.
abbrev pub remove_at : ℕ → List TxOut → List TxOut
remove_at n [] = []
remove_at zero (o ∷ os) = os
remove_at (suc n) (o ∷ os) = o ∷ remove_at n os

without_index-below : (j i : ℕ) (os : List TxOut) → j < i → without_index (pos j) i os ≡ os
unfolding without_index
without_index-below j i [] h = refl
without_index-below j i (o ∷ os) h = ground (arith, without_index-below j (suc i) os)

without_index-remove_at :
    (n i j : ℕ) (os : List TxOut) → i + n ≡ j → without_index (pos j) i os ≡ remove_at n os
unfolding without_index
without_index-remove_at n i j [] h = refl
without_index-remove_at zero i j (o ∷ os) h = ground (arith, without_index-below j (suc i) os)
without_index-remove_at (suc n) i j (o ∷ os) h =
    ground (arith, without_index-remove_at n (suc i) j os)

remove_at-past : (n : ℕ) (os : List TxOut) → length os ≤ n → remove_at n os ≡ os
remove_at-past n [] h = refl
remove_at-past zero (o ∷ os) h = absurd (omega arith)
remove_at-past (suc n) (o ∷ os) h = ap (◌∷◌ o) (remove_at-past n os (omega arith))

length-remove_at :
    (n : ℕ) (os : List TxOut) → n < length os → suc (length (remove_at n os)) ≡ length os
length-remove_at n [] h = absurd (omega arith)
length-remove_at zero (o ∷ os) h = refl
length-remove_at (suc n) (o ∷ os) h = ap suc (length-remove_at n os (omega arith))

module _ (B : Bucket (List TxOut)) where
  -- An input that cites the i-th output of a stored list takes exactly that output out of it, deletes
  -- the entry if it was the last, and leaves every other entry.
  spend_input_lem :
      (s : B.Store) (vin : TxIn) (i : ℕ) (outs : List TxOut)
      → vin.index ≡ pos i
      → vin.prev_tx_id ≢ []
      → B.get s vin.prev_tx_id ≡ some outs
      → (s' : B.Store) × (spend_input B s vin ≡ ok s')
        × ((k : Bytes)
            → B.get s' k ≡ (
                if vin.prev_tx_id == k
                then elim (remove_at i outs) [ [] ↦ none | o ∷ os ↦ some (o ∷ os) ]
                else B.get s k))
  unfolding spend_input
  spend_input_lem s vin i outs at named e =
      rw (e, spend_input, at, without_index-remove_at i 0 i outs (omega arith))
        (stored vin.prev_tx_id named (remove_at i outs))
    where
      stored :
          (t : Bytes)
          → t ≢ []
          → (left : List TxOut)
          → (s' : B.Store) × (store_outputs B s t left ≡ ok s')
            × ((k : Bytes)
                → B.get s' k ≡ (
                    if t == k then elim left [ [] ↦ none | o ∷ os ↦ some (o ∷ os) ] else B.get s k))
      stored t named [] = (B.delete s t, unfold store_outputs in refl, λ k. B.get-delete s t k)
      stored [] named (o ∷ os) = absurd (named refl)
      stored (b ∷ t) named (o ∷ os) = (
        B.put s (b ∷ t) (o ∷ os),
        unfold store_outputs put_or_panic in refl,
        λ k. B.get-put s (b ∷ t) k (o ∷ os),
      )

remove_at_comm :
    (i j : ℕ) (os : List TxOut)
    → i ≤ j
    → remove_at j (remove_at i os) ≡ remove_at i (remove_at (suc j) os)
remove_at_comm i j [] h = refl
remove_at_comm zero j (o ∷ os) h = refl
remove_at_comm (suc i) zero (o ∷ os) h = absurd (omega arith)
remove_at_comm (suc i) (suc j) (o ∷ os) h = ap (◌∷◌ o) (remove_at_comm i j os (omega arith))

-- An entry of the bucket, which is deleted when nothing is left.
abbrev pub entry : List TxOut → Option (List TxOut)
entry [] = none
entry (o ∷ os) = some (o ∷ os)

entry-some : (os : List TxOut) → 0 < length os → entry os ≡ some os
entry-some [] h = absurd (omega arith)
entry-some (o ∷ os) h = refl

entry-eq : (os : List TxOut) → elim os [ [] ↦ none | o ∷ os' ↦ some (o ∷ os') ] ≡ entry os
entry-eq [] = refl
entry-eq (o ∷ os) = refl

module _ (B : Bucket (List TxOut)) where
  -- Two inputs of one transaction that cite its i-th and then its j-th output, i < j: the second takes
  -- not the j-th output but the one behind it, and none if the j-th is the last; so the j-th output,
  -- which is spent, stays in the set.
  pub spend_inputs-drift :
      (s : B.Store) (v w : TxIn) (i j : ℕ) (outs : List TxOut)
      → v.index ≡ pos i
      → w.index ≡ pos j
      → v.prev_tx_id ≢ []
      → w.prev_tx_id ≡ v.prev_tx_id
      → B.get s v.prev_tx_id ≡ some outs
      → i < j
      → j < length outs
      → (s' : B.Store) × (spend_inputs B s (v ∷ w ∷ []) ≡ ok s')
        × (B.get s' v.prev_tx_id ≡ entry (remove_at i (remove_at (suc j) outs)))
  unfolding spend_inputs
  spend_inputs-drift s v w i j outs vi wj named same e lt inside =
      let (s₁, ran₁, get₁) = spend_input_lem B s v i outs vi named e in
      let left : B.get s₁ v.prev_tx_id ≡ some (remove_at i outs) =
        get₁ v.prev_tx_id
        ∙ rw (eq_refl v.prev_tx_id) (
            entry-eq (remove_at i outs)
            ∙ entry-some (remove_at i outs) (omega (arith, length-remove_at i outs))) in
      let (s₂, ran₂, get₂) =
        spend_input_lem B s₁ w j (remove_at i outs) wj (λ x. named (sym same ∙ x))
          (ap (B.get s₁) same ∙ left) in
      (
        s₂,
        rw (ran₁, ran₂) refl,
        get₂ v.prev_tx_id
            ∙ rw (same, eq_refl v.prev_tx_id)
                (entry-eq (remove_at j (remove_at i outs))
                  ∙ ap entry (remove_at_comm i j outs (omega arith))),
      )

  -- `UpdateUTXOSet` passes a coinbase transaction over, so a block in which the next transaction spends
  -- an output of the coinbase before it panics, whatever follows, unless the set held that id already.
  pub update_utxo_set-coinbase :
      (s : B.Store) (block : Block) (cb tx : UtxoTransaction) (vin : TxIn) (vins : List TxIn)
      (txs : List UtxoTransaction)
      → block.utxo ≡ cb ∷ tx ∷ txs
      → is_coinbase cb ≡ true
      → is_coinbase tx ≡ false
      → tx.vin ≡ vin ∷ vins
      → vin.prev_tx_id ≡ cb.tx_id
      → B.get s cb.tx_id ≡ none
      → update_utxo_set B s block ≡ panic
  unfolding update_utxo_set update_with_txs update_with_tx spend_inputs spend_input
  update_utxo_set-coinbase s block cb tx vin vins txs body c n i p missing =
      rw body (rw (c, n, i, p, missing, update_with_tx, spend_inputs, spend_input) refl)
