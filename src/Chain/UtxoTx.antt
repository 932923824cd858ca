-- ===== src/Chain/UtxoTx.antt =====
-- chain/blockchain.go: `NewUTXOTransaction`, and the loop of `TxTransform` (in both consensus
-- packages) that turns injected transactions into UTXO transactions.
pub mod Funded
use utxo_block_emulator.Base.{
  ℕ, suc, List, [], ◌∷◌, ◌++◌, Bool, true, false, ◌||◌, Option, none, some, Bytes, bytes_eq, nat_eq,
  ◌==◌, if◌then◌else◌,
}
use utxo_block_emulator.Base.Int.{ℤ, pos, negsuc, ◌+ℤ◌, ◌-ℤ◌, ltb_ℤ, int_eq}
use utxo_block_emulator.Base.GoMap.{GoMap}
use utxo_block_emulator.Base.Outcome.{Outcome, ok, panic, ◌>>=◌}
use utxo_block_emulator.Core.Account.{UtxoAccountState}
use utxo_block_emulator.Core.Transaction.{Transaction}
use utxo_block_emulator.Core.UtxoTransaction.{
  UtxoTransaction, TxIn, TxOut, tx_digest, new_coinbase_tx,
}
use utxo_block_emulator.Chain.TrieDb.{TrieDb}
use utxo_block_emulator.Chain.StatusTrie.{
  Spendable, find_spendable_outputs_from_status_trie, add_utxo_to_status_trie,
}

-- The two loops that build the inputs.
abbrev pub inputs_of : Bytes → Bytes → List ℤ → List TxIn
inputs_of pubkey txid [] = []
inputs_of pubkey txid (i ∷ is) =
    record { prev_tx_id = txid; index = i; signature = []; pub_key = pubkey }
    ∷ inputs_of pubkey txid is

abbrev pub inputs : Bytes → GoMap Bytes (List ℤ) → List TxIn
inputs pubkey [] = []
inputs pubkey ((txid, is) ∷ m) = inputs_of pubkey txid is ++ inputs pubkey m

-- The payment, and the change if there is any.
abbrev pub outputs : ℤ → ℤ → Bytes → Bytes → List TxOut
outputs acc amount receiver sender =
    record { value = amount; pubkey_hash = receiver }
    ∷ (if ltb_ℤ amount acc then record { value = acc -ℤ amount; pubkey_hash = sender } ∷ [] else [])

-- `acc` is -1 or 0: a coinbase transaction of the whole amount is made and spent.
abbrev pub needs_coinbase : ℤ → Bool
needs_coinbase acc = acc == negsuc 0 || acc == pos 0

abbrev pub or_empty : Option (GoMap Bytes (List ℤ)) → GoMap Bytes (List ℤ)
or_empty none = []
or_empty (some m) = m

-- `sha` is SHA-256, `hash` SHA-256 of a transaction's gob encoding.
module _ (sha : Bytes → Bytes) (hash : UtxoTransaction → Bytes) where
  unfoldable pub build_tx : Bytes → Bytes → ℤ → ℤ → GoMap Bytes (List ℤ) → UtxoTransaction
  unfolding tx_digest
  build_tx sender to amount acc valid_outputs =
      let tx : UtxoTransaction = record {
        tx_id = [];
        vin = inputs sender valid_outputs;
        vout = outputs acc amount (sha to) (sha sender);
        nonce = 0;
        time = 0;
        tx_hash = [];
        relayed = false;
        recipient = to;
      } in
      let tx' : UtxoTransaction = record tx { tx_id = tx_digest hash tx } in
      record tx' { tx_hash = tx_digest hash tx' }

  unfoldable pub coinbase_for : (nonce : ℕ) → Bytes → ℤ → UtxoTransaction
  unfolding new_coinbase_tx
  coinbase_for nonce sender amount = new_coinbase_tx hash nonce (sha sender) amount none

  -- The transaction, and the coinbase (nil where there is none), from what was found.
  unfoldable pub assemble :
      (coinbase_nonce : ℕ)
      → Bytes
      → Bytes
      → ℤ
      → Spendable
      → Option UtxoTransaction × Option UtxoTransaction
  unfolding build_tx coinbase_for
  assemble coinbase_nonce sender to amount found =
      let coinbase = coinbase_for coinbase_nonce sender amount in
      if needs_coinbase found.accumulated
      then (
        some (build_tx sender to amount amount ((coinbase.tx_id, pos 0 ∷ []) ∷ [])),
        some coinbase,
      )
      else (
        some (build_tx sender to amount found.accumulated (or_empty found.unspent_outputs)),
        none,
      )

  module _ (D : TrieDb UtxoAccountState) where
    -- The new root and its database come last. The two nonces are from the random generator.
    unfoldable pub new_utxo_transaction :
        (nonce coinbase_nonce : ℕ)
        → Bytes
        → Bytes
        → ℤ
        → D.Db
        → Bytes
        → Outcome (Option UtxoTransaction × Option UtxoTransaction × Bytes × D.Db)
    unfolding find_spendable_outputs_from_status_trie assemble
    new_utxo_transaction nonce coinbase_nonce sender to amount d root = do
      (found, root', d') ←
          find_spendable_outputs_from_status_trie D nonce (sha sender) amount d root
      let (tx, coinbase) = assemble coinbase_nonce sender to amount found
      ok (tx, coinbase, root', d')

    -- What one injected transaction appends to the batch, by the three branches of the loop.
    abbrev pub batch : Option UtxoTransaction → Option UtxoTransaction → List UtxoTransaction
    batch tx (some coinbase) = coinbase ∷ elim tx [ none ↦ [] | some t ↦ t ∷ [] ]
    batch none none = []
    batch (some t) none = t ∷ []

    -- `nonces i` are the random numbers of the i-th round: for a new sender, for the coinbase, and
    -- for the accounts of the outputs.
    unfoldable pub tx_transform_loop :
        (nonces : ℕ → ℕ × ℕ × (ℕ → ℕ))
        → ℕ
        → List Transaction
        → D.Db
        → Bytes
        → Outcome (List UtxoTransaction × Bytes × D.Db)
    unfolding new_utxo_transaction add_utxo_to_status_trie
    tx_transform_loop nonces i [] d root = ok ([], root, d)
    tx_transform_loop nonces i (inject ∷ rest) d root = do
      (tx, coinbase, root₁, d₁) ←
          new_utxo_transaction (nonces i).0 (nonces i).1 inject.sender inject.recipient inject.value
            d root
      (root₂, d₂) ← add_utxo_to_status_trie D (nonces i).2 tx d₁ root₁
      (txs, root₃, d₃) ← tx_transform_loop nonces (suc i) rest d₂ root₂
      ok (batch tx coinbase ++ txs, root₃, d₃)
