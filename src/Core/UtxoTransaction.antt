-- ===== src/Core/UtxoTransaction.antt =====
-- core/utxo_transaction.go. A time is a number, and 0 is Go's zero time.
use utxo_block_emulator.Base.{
  ℕ, Bytes, List, [], ◌∷◌, Bool, false, Option, none, some, ◌&&◌, length, ◌==◌, nat_eq,
}
use utxo_block_emulator.Base.Int.{ℤ, negsuc, int_eq}
use utxo_block_emulator.Core.Transaction.{Timed}

pub record TxIn : Type 0 where
  pub prev_tx_id : Bytes
  pub index : ℤ
  pub signature : Bytes
  pub pub_key : Bytes

pub record TxOut : Type 0 where
  pub value : ℤ
  pub pubkey_hash : Bytes

pub record UtxoTransaction : Type 0 where
  pub tx_id : Bytes
  pub vin : List TxIn
  pub vout : List TxOut
  pub nonce : ℕ
  pub time : ℕ
  pub tx_hash : Bytes
  pub relayed : Bool
  pub recipient : Bytes

instance abbrev pub utxo_transaction_timed : Timed UtxoTransaction
utxo_transaction_timed = record { time = λ tx. tx.time; with_time = λ t tx. record tx { time = t } }

-- SHA-256 of the gob encoding of the transaction without its id.
unfoldable pub tx_digest : (hash : UtxoTransaction → Bytes) → UtxoTransaction → Bytes
tx_digest hash tx = hash (record tx { tx_id = [] })

abbrev pub is_coinbase_input : TxIn → Bool
is_coinbase_input i = length i.prev_tx_id == 0 && i.index == negsuc 0

-- `&&` stops at a false operand, so `Vin[0]` is read of a list of one input only.
unfoldable pub is_coinbase_of : List TxIn → Bool
is_coinbase_of [] = false
is_coinbase_of (i ∷ []) = is_coinbase_input i
is_coinbase_of (i ∷ _ ∷ _) = false

unfoldable pub is_coinbase : UtxoTransaction → Bool
unfolding is_coinbase_of
is_coinbase tx = is_coinbase_of tx.vin

-- `nonce` is what the random generator yields; `relay_hash` is nil (`none`) but for a relayed output.
unfoldable pub new_coinbase_tx :
    (hash : UtxoTransaction → Bytes) (nonce : ℕ) → Bytes → ℤ → Option Bytes → UtxoTransaction
unfolding tx_digest
new_coinbase_tx hash nonce pubkey_hash val relay_hash =
    let txin : TxIn = record { prev_tx_id = []; index = negsuc 0; signature = []; pub_key = [] } in
    let txout : TxOut = record { value = val; pubkey_hash = pubkey_hash } in
    let tx : UtxoTransaction = record {
      tx_id = [];
      vin = txin ∷ [];
      vout = txout ∷ [];
      nonce = nonce;
      time = 0;
      tx_hash = [];
      relayed = false;
      recipient = [];
    } in
    let tx' : UtxoTransaction = record tx { tx_id = tx_digest hash tx } in
    record tx' { tx_hash = elim relay_hash [ some h ↦ h | none ↦ tx_digest hash tx' ] }
