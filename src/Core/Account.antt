-- ===== src/Core/Account.antt =====
-- core/account.go and core/utxo_account.go. Encoding for the trie (gob) and hashing are the standard
-- library's.
use utxo_block_emulator.Base.{ℕ, Bytes, Bool, true, false, if◌then◌else◌}
use utxo_block_emulator.Base.Int.{ℤ, ◌+ℤ◌, ◌-ℤ◌, ltb_ℤ}
use utxo_block_emulator.Base.GoMap.{GoMap}

pub record Account : Type 0 where
  pub ac_address : Bytes
  pub public_key : Bytes

pub record AccountState : Type 0 where
  pub ac_address : Bytes
  pub nonce : ℕ
  pub balance : ℤ
  pub storage_root : Bytes
  pub code_hash : Bytes

-- A method that mutates its receiver returns the new receiver and its result.
unfoldable pub deduct : AccountState → ℤ → AccountState × Bool
deduct s val =
    if ltb_ℤ s.balance val then (s, false) else (record s { balance = s.balance -ℤ val }, true)

unfoldable pub deposit : AccountState → ℤ → AccountState
deposit s value = record s { balance = s.balance +ℤ value }

-- UTXOs maps a transaction id to its unspent outputs, from the output's index to its value.
pub record UtxoAccountState : Type 0 where
  pub pubkey_hash : Bytes
  pub nonce : ℕ
  pub balance : ℤ
  pub utxos : GoMap Bytes (GoMap ℤ ℤ)

unfoldable pub utxo_deduct : UtxoAccountState → ℤ → UtxoAccountState × Bool
utxo_deduct s val =
    if ltb_ℤ s.balance val then (s, false) else (record s { balance = s.balance -ℤ val }, true)

unfoldable pub utxo_deposit : UtxoAccountState → ℤ → UtxoAccountState
utxo_deposit s value = record s { balance = s.balance +ℤ value }
