-- ===== src/Core/Transaction.antt =====
-- core/transaction.go. A time is a number, and 0 is Go's zero time.
use utxo_block_emulator.Base.{ℕ, Bytes, [], Bool, false}
use utxo_block_emulator.Base.Int.{ℤ}

-- What the pools read and write of a transaction: `tx.Time`.
pub record Timed (T : Type 0) : Type 0 where
  pub time : T → ℕ
  pub with_time : ℕ → T → T

pub record Transaction : Type 0 where
  pub sender : Bytes
  pub recipient : Bytes
  pub nonce : ℕ
  pub signature : Bytes
  pub value : ℤ
  pub tx_hash : Bytes
  pub time : ℕ
  pub relayed : Bool
  pub has_broker : Bool
  pub sender_is_broker : Bool
  pub original_sender : Bytes
  pub final_recipient : Bytes
  pub raw_tx_hash : Bytes

instance abbrev pub transaction_timed : Timed Transaction
transaction_timed = record { time = λ tx. tx.time; with_time = λ t tx. record tx { time = t } }

-- The transaction that is hashed: every field that `NewTransaction` does not set is zero.
abbrev pub unhashed : Bytes → Bytes → ℤ → ℕ → Transaction
unhashed sender recipient value nonce = record {
  sender = sender;
  recipient = recipient;
  nonce = nonce;
  signature = [];
  value = value;
  tx_hash = [];
  time = 0;
  relayed = false;
  has_broker = false;
  sender_is_broker = false;
  original_sender = [];
  final_recipient = [];
  raw_tx_hash = [];
}

-- `hash` is SHA-256 of the gob encoding.
unfoldable pub new_transaction : (hash : Transaction → Bytes) → Bytes → Bytes → ℤ → ℕ → Transaction
new_transaction hash sender recipient value nonce =
    let tx = unhashed sender recipient value nonce in
    record tx {
      tx_hash = hash tx;
      relayed = false;
      final_recipient = [];
      original_sender = [];
      raw_tx_hash = [];
      has_broker = false;
      sender_is_broker = false;
    }
