-- ===== src/Chain/StatusTrie.antt =====
-- chain/utxo_set.go, the part on the status trie: an account's unspent outputs are found, taken out,
-- and added.
pub mod Entries
pub mod Spend
pub mod Receive
pub mod Balanced
use utxo_block_emulator.Base.{
  ℕ, suc, List, [], ◌∷◌, ◌++◌, Bool, true, false, Option, none, some, Bytes, bytes_eq, nat_eq, ◌==◌,
  if◌then◌else◌,
}
use utxo_block_emulator.Base.Int.{ℤ, pos, negsuc, ◌+ℤ◌, ◌-ℤ◌, ltb_ℤ, int_eq}
use utxo_block_emulator.Base.GoMap
use utxo_block_emulator.Base.GoMap.{GoMap}
use utxo_block_emulator.Base.Outcome.{Outcome, ok, panic, or_panic, ◌>>=◌}
use utxo_block_emulator.Core.Account.{UtxoAccountState}
use utxo_block_emulator.Core.UtxoTransaction.{UtxoTransaction, TxOut}
use utxo_block_emulator.Chain.TrieDb.{TrieDb, change, commit_nodes}

abbrev pub Outputs : Type 0
Outputs = GoMap ℤ ℤ

abbrev pub Utxos : Type 0
Utxos = GoMap Bytes Outputs

-- What one transaction's loop hands back: the sum so far, the account's balance, the indices taken,
-- and the outputs that it left in the map.
pub record Taken : Type 0 where
  pub accumulated : ℤ
  pub balance : ℤ
  pub out_ids : List ℤ
  pub left : Outputs

-- `for outId, value := range txOut`: each entry that is visited is deleted, so the entries that the
-- loop has not reached are what is left.
unfoldable pub take_outputs : (amount accumulated balance : ℤ) → List ℤ → Outputs → Taken
take_outputs amount accumulated balance ids [] = record {
  accumulated = accumulated;
  balance = balance;
  out_ids = ids;
  left = [];
}
take_outputs amount accumulated balance ids ((out_id, value) ∷ rest) =
    let accumulated' : ℤ = accumulated +ℤ value in
    let more = take_outputs amount accumulated' (balance -ℤ value) (ids ++ (out_id ∷ [])) rest in
    if ltb_ℤ amount accumulated'
    then record {
      accumulated = accumulated';
      balance = balance -ℤ value;
      out_ids = ids ++ (out_id ∷ []);
      left = rest;
    }
    else more

pub record Found : Type 0 where
  pub accumulated : ℤ
  pub balance : ℤ
  pub unspent_outputs : GoMap Bytes (List ℤ)
  pub utxos : Utxos

-- An entry with no element is not in the map: a transaction with no output left is deleted, and an
-- append makes an entry only when it is made.
abbrev pub enter : {A : Type 0} → Bytes → List A → GoMap Bytes (List A) → GoMap Bytes (List A)
enter txid [] m = m
enter txid (o ∷ os) m = (txid, o ∷ os) ∷ m

-- `for txid, txOut := range s_state.UTXOs`. A map has one entry for a txid, so the indices
-- that one round appends are the whole list of its key.
unfoldable pub take_utxos : (amount accumulated balance : ℤ) → Utxos → Found
unfolding take_outputs
take_utxos amount accumulated balance [] = record {
  accumulated = accumulated;
  balance = balance;
  unspent_outputs = [];
  utxos = [];
}
take_utxos amount accumulated balance ((txid, outs) ∷ rest) =
    let taken : Taken = take_outputs amount accumulated balance [] outs in
    let more : Found = take_utxos amount taken.accumulated taken.balance rest in
    if ltb_ℤ amount taken.accumulated
    then record {
      accumulated = taken.accumulated;
      balance = taken.balance;
      unspent_outputs = enter txid taken.out_ids [];
      utxos = enter txid taken.left rest;
    }
    else record {
      accumulated = more.accumulated;
      balance = more.balance;
      unspent_outputs = enter txid taken.out_ids more.unspent_outputs;
      utxos = enter txid taken.left more.utxos;
    }

-- A new account; `nonce` is what the random generator yields.
abbrev pub new_account : (nonce : ℕ) → Bytes → UtxoAccountState
new_account nonce pubkey_hash = record {
  pubkey_hash = pubkey_hash;
  nonce = nonce;
  balance = pos 0;
  utxos = [];
}

-- The account that is stored, or a new one.
abbrev pub account_or_new : (nonce : ℕ) → Bytes → Option UtxoAccountState → UtxoAccountState
account_or_new nonce pubkey_hash none = new_account nonce pubkey_hash
account_or_new nonce pubkey_hash (some s) = s

-- The amount found, -1 for a missing account and 0 for insufficient funds, and the outputs to cite,
-- nil (`none`) in those two cases.
pub record Spendable : Type 0 where
  pub accumulated : ℤ
  pub unspent_outputs : Option (GoMap Bytes (List ℤ))

-- The account after the loops, and what they found.
unfoldable pub spend : ℤ → UtxoAccountState → Spendable × UtxoAccountState
unfolding take_utxos
spend amount s =
    let found : Found = take_utxos amount (pos 0) s.balance s.utxos in
    (
      record { accumulated = found.accumulated; unspent_outputs = some found.unspent_outputs },
      record s { balance = found.balance; utxos = found.utxos },
    )

-- Each output is entered under its transaction's id and its index.
abbrev pub add_output : Bytes → ℤ → ℤ → Utxos → Utxos
add_output txid index value utxos = elim (GoMap.lookup txid utxos) [
  | none ↦ GoMap.insert txid ((index, value) ∷ []) utxos
  | some outs ↦ GoMap.insert txid (GoMap.insert index value outs) utxos
]

unfoldable pub receive : Bytes → ℤ → ℤ → UtxoAccountState → UtxoAccountState
receive txid index value s = record s {
  balance = s.balance +ℤ value;
  utxos = add_output txid index value s.utxos;
}

module _ (D : TrieDb UtxoAccountState) where
  open D use {Db, Trie, get, update, open_at}

  -- The result, the trie's new root and the database with it.
  unfoldable pub find_spendable_outputs_from_status_trie :
      (nonce : ℕ) → Bytes → ℤ → Db → Bytes → Outcome (Spendable × Bytes × Db)
  unfolding spend commit_nodes
  find_spendable_outputs_from_status_trie nonce pubkey_hash amount d root = do
    st ← or_panic (open_at d root)
    elim (get st pubkey_hash) [
      | none ↦ (do
        (root', d') ← commit_nodes D d (update st pubkey_hash (new_account nonce pubkey_hash))
        ok (record { accumulated = negsuc 0; unspent_outputs = none }, root', d'))
      | some s ↦
          if ltb_ℤ s.balance amount
          then ok (record { accumulated = pos 0; unspent_outputs = none }, root, d)
          else (do
            (root', d') ← commit_nodes D d (update st pubkey_hash (spend amount s).1)
            ok ((spend amount s).0, root', d'))
    ]

  -- `for index, Vout := range tx.Vout`; `nonces i` is the random nonce of the i-th round.
  unfoldable pub add_outputs : (nonces : ℕ → ℕ) → Bytes → ℕ → List TxOut → Trie → Trie
  unfolding receive
  add_outputs nonces txid index [] st = st
  add_outputs nonces txid index (o ∷ os) st =
      let s = account_or_new (nonces index) o.pubkey_hash (get st o.pubkey_hash) in
      add_outputs nonces txid (suc index) os
        (update st o.pubkey_hash (receive txid (pos index) o.value s))

  -- A nil transaction changes nothing.
  unfoldable pub add_utxo_to_status_trie :
      (nonces : ℕ → ℕ) → Option UtxoTransaction → Db → Bytes → Outcome (Bytes × Db)
  unfolding add_outputs change
  add_utxo_to_status_trie nonces none d root = ok (root, d)
  add_utxo_to_status_trie nonces (some tx) d root =
      change D (add_outputs nonces tx.tx_id 0 tx.vout) d root
