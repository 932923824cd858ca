-- ===== src/Examples/Utxo.antt =====
-- Runs of the UTXO accounts and the UTXO set, and each of their theorems at an input.
use utxo_block_emulator.Base.{
  ℕ, suc, ◌≡◌, ◌≢◌, ◌⊎◌, refl, sym, subst, ◌∙◌, Bool-cases, inl, inr, some-inj, List, [], ◌∷◌, ◌++◌,
  true, false, none, some, Bytes, bytes_eq, bytes_beq, nat_eq, ◌==◌, if◌then◌else◌, arith, All,
}
use utxo_block_emulator.Base.Text.{codes}
use utxo_block_emulator.Base.Int.{ℤ, pos, negsuc, ◌+ℤ◌, ◌-ℤ◌, ◌<ℤ◌, ◌≤ℤ◌, int_eq}
use utxo_block_emulator.Base.GoMap.{GoMap, lookup, insert}
use utxo_block_emulator.Base.Outcome.{ok, panic}
use utxo_block_emulator.Core.Account.{UtxoAccountState}
use utxo_block_emulator.Core.Block.{Block}
use utxo_block_emulator.Core.UtxoTransaction.{
  UtxoTransaction, TxIn, TxOut, is_coinbase, is_coinbase_of,
}
use utxo_block_emulator.Chain.TrieDb.{TrieDb, memory_db, get_at, change}
use utxo_block_emulator.Chain.Bucket.{Bucket, memory_bucket}
use utxo_block_emulator.Chain.StatusTrie.{
  spend, take_utxos, take_outputs, add_outputs, receive, add_utxo_to_status_trie,
}
use utxo_block_emulator.Chain.StatusTrie.Entries.{Entry, entries, sum_of, cited, ids_of}
use utxo_block_emulator.Chain.StatusTrie.Spend.{spend-splits, IsBalanced}
use utxo_block_emulator.Chain.StatusTrie.Receive.{balance_of, paid_to, add_utxo_to_status_trie_pays}
use utxo_block_emulator.Chain.StatusTrie.Balanced.{slot, add_utxo_to_status_trie-IsBalanced}
use utxo_block_emulator.Chain.UtxoTx.{new_utxo_transaction}
use utxo_block_emulator.Chain.UtxoTx.Funded.{
  names_of, paid, IsUnfunded, new_utxo_transaction-conserves, new_utxo_transaction-mints,
}
use utxo_block_emulator.Chain.UtxoSet.{spend_inputs, update_utxo_set, find_spendable_outputs}
use utxo_block_emulator.Chain.UtxoSet.Drift.{
  remove_at, entry, spend_inputs-drift, update_utxo_set-coinbase,
}
use utxo_block_emulator.Chain.UtxoSet.Spendable.{owned, find_spendable_outputs-selects}

abbrev alice : Bytes
alice = codes "alice"

-- An account of three outputs, 2 + 3 + 4.
abbrev account : UtxoAccountState
account = record {
  pubkey_hash = alice;
  nonce = 1;
  balance = pos 9;
  utxos =
      (codes "t1", (pos 0, pos 2) ∷ (pos 1, pos 3) ∷ []) ∷ (codes "t2", (pos 0, pos 4) ∷ []) ∷ [];
}

abbrev trie : GoMap Bytes UtxoAccountState
trie = (alice, account) ∷ []

abbrev tries : List (GoMap Bytes UtxoAccountState)
tries = trie ∷ []

-- The bytes of a map have no fixed order: an update always changes the trie.
abbrev accounts : TrieDb UtxoAccountState
accounts = memory_db (λ a b. false) (λ a b h. cc)

-- SHA-256 and the hash of a transaction, for the tests.
abbrev plain_sha : Bytes → Bytes
plain_sha b = b

abbrev tx_hash : UtxoTransaction → Bytes
tx_hash tx = 9 ∷ tx.tx_id

abbrev minted : UtxoTransaction
minted = record {
  tx_id = codes "cb";
  vin = record { prev_tx_id = []; index = negsuc 0; signature = []; pub_key = [] } ∷ [];
  vout = record { value = pos 6; pubkey_hash = alice } ∷ [];
  nonce = 3;
  time = 0;
  tx_hash = codes "cb";
  relayed = false;
  recipient = [];
}

abbrev citing : Bytes → ℤ → TxIn
citing txid i = record { prev_tx_id = txid; index = i; signature = []; pub_key = alice }

abbrev spending : UtxoTransaction
spending = record {
  tx_id = codes "t3";
  vin = citing (codes "cb") (pos 0) ∷ [];
  vout = record { value = pos 6; pubkey_hash = codes "bob" } ∷ [];
  nonce = 0;
  time = 0;
  tx_hash = codes "t3";
  relayed = false;
  recipient = codes "bob";
}

abbrev block : Block
block = record {
  header = record {
    parent_block_hash = [];
    state_root = [];
    tx_root = [];
    number = 1;
    time = 5;
    miner = 0;
  };
  body = [];
  utxo = minted ∷ spending ∷ [];
  hash = codes "h";
}

abbrev output : ℕ → TxOut
output v = record { value = pos v; pubkey_hash = alice }

abbrev output_bucket : Bucket (List TxOut)
output_bucket = memory_bucket

abbrev set : GoMap Bytes (List TxOut)
set = (codes "t1", output 1 ∷ output 2 ∷ output 3 ∷ []) ∷ []

-- The first output of `t1` is not enough, so the second goes too; `t2` is left alone.
spend_takes_two :
    (spend (pos 4) account).0.unspent_outputs ≡ some ((codes "t1", pos 0 ∷ pos 1 ∷ []) ∷ [])
unfolding spend take_utxos take_outputs ◌+ℤ◌
spend_takes_two = refl

account-IsBalanced : IsBalanced account
unfolding ◌+ℤ◌
account-IsBalanced = refl

spend-splits_example :
    let (found, s') = spend (pos 4) account in
    (t : List Entry) × (outs : GoMap Bytes (List ℤ)) × (found.unspent_outputs ≡ some outs)
    × (cited outs ≡ ids_of t)
    × (entries account.utxos ≡ t ++ entries s'.utxos)
    × (found.accumulated ≡ sum_of t)
    × (s'.balance ≡ account.balance -ℤ found.accumulated)
    × (((pos 4) <ℤ found.accumulated) ⊎ (entries s'.utxos ≡ []))
spend-splits_example = spend-splits (pos 4) account

add_utxo_to_status_trie_pays_example :
    (root' : Bytes) × (d' : (List (GoMap Bytes UtxoAccountState))) × (add_utxo_to_status_trie
        accounts
        (λ i. i)
        (some minted)
        tries
        (0 ∷ [])
      ≡ ok (root', d'))
    × ((k : Bytes)
        → balance_of (get_at accounts d' root' k)
          ≡ balance_of (get_at accounts tries (0 ∷ []) k) +ℤ paid_to k minted.vout)
unfolding bytes_beq ◌+ℤ◌
add_utxo_to_status_trie_pays_example =
    add_utxo_to_status_trie_pays accounts (λ i. i) minted tries (0 ∷ []) (trie, false) alice refl
      (λ h. absurd (ground (arith, h)))

abbrev Ready : Bytes → UtxoAccountState → Type 0
Ready k s = IsBalanced s × ((index : ℤ) → slot minted.tx_id index s.utxos ≡ none)

-- The only account of the trie is balanced, and holds no output of `cb`.
trie-Ready : (k : Bytes) (s : UtxoAccountState) → lookup k trie ≡ some s → Ready k s
unfolding lookup bytes_beq
trie-Ready k s h = elim (Bool-cases (alice == k)) [
  | inl e ↦
      subst (Ready k) (some-inj (sym (found e) ∙ h))
        (account-IsBalanced, λ index. account-slot index)
  | inr e ↦ absurd (missing e)
]
  where
    account-slot : (index : ℤ) → slot minted.tx_id index account.utxos ≡ none
    account-slot index = refl

    found : (alice == k) ≡ true → lookup k trie ≡ some account
    found e = rw (lookup, e) refl

    missing : (alice == k) ≡ false → ⊥
    missing e = cc (rw (lookup, e) at h)

-- The account with the output of `cb`.
abbrev after : UtxoAccountState
after = record account {
  balance = pos 15;
  utxos = account.utxos ++ ((codes "cb", (pos 0, pos 6) ∷ []) ∷ []);
}

adds_minted :
    add_utxo_to_status_trie accounts (λ i. i) (some minted) tries (0 ∷ [])
    ≡ ok (1 ∷ [], tries ++ ((alice, after) ∷ []) ∷ [])
unfolding add_utxo_to_status_trie add_outputs change receive lookup insert bytes_beq ◌+ℤ◌
adds_minted = refl

after_stored : get_at accounts (tries ++ ((alice, after) ∷ []) ∷ []) (1 ∷ []) alice ≡ some after
unfolding lookup bytes_beq
after_stored = refl

add_utxo_to_status_trie-IsBalanced_example : IsBalanced after
add_utxo_to_status_trie-IsBalanced_example =
    add_utxo_to_status_trie-IsBalanced accounts (λ i. i) minted tries
      (tries ++ ((alice, after) ∷ []) ∷ []) (0 ∷ []) (1 ∷ []) (trie, false) refl trie-Ready
      adds_minted alice after after_stored

alice_stored : lookup alice trie ≡ some account
unfolding lookup bytes_beq
alice_stored = refl

bob_missing : IsUnfunded plain_sha tx_hash accounts (lookup (codes "bob") trie) (pos 7)
unfolding lookup bytes_beq
bob_missing = tt

new_utxo_transaction-conserves_example :
    (tx : UtxoTransaction) × (root' : Bytes) × (d' : (List (GoMap Bytes UtxoAccountState)))
    × (t : List Entry) × (s' : UtxoAccountState) × (new_utxo_transaction plain_sha tx_hash accounts
          1 2 alice
          (codes "bob")
          (pos 4)
          tries
          (0 ∷ [])
        ≡ ok (some tx, none, root', d'))
    × (names_of tx.vin ≡ ids_of t)
    × (entries account.utxos ≡ t ++ entries s'.utxos)
    × ((change : List TxOut) × (tx.vout
          ≡ record { value = pos 4; pubkey_hash = plain_sha (codes "bob") } ∷ change)
        × All (λ o. (o.pubkey_hash ≡ plain_sha alice) × (pos 0 <ℤ o.value)) change)
    × (paid tx.vout ≡ sum_of t)
    × IsBalanced s'
    × ((k : Bytes)
        → get_at accounts d' root' k
          ≡ (if plain_sha alice == k then some s' else get_at accounts tries (0 ∷ []) k))
new_utxo_transaction-conserves_example =
    new_utxo_transaction-conserves plain_sha tx_hash accounts 1 2 alice (codes "bob") (pos 4) tries
      (0 ∷ []) (trie, false) account refl alice_stored account-IsBalanced (omega arith)
      (omega arith)

new_utxo_transaction-mints_example :
    (tx cb : UtxoTransaction) × (root' : Bytes) × (d' : (List (GoMap Bytes UtxoAccountState)))
    × (new_utxo_transaction plain_sha tx_hash accounts 1 2
          (codes "bob")
          alice
          (pos 7)
          tries
          (0 ∷ [])
        ≡ ok (some tx, some cb, root', d'))
    × (is_coinbase cb ≡ true)
    × (cb.vout ≡ record { value = (pos 7); pubkey_hash = plain_sha (codes "bob") } ∷ [])
    × (names_of tx.vin ≡ (cb.tx_id, pos 0) ∷ [])
    × (tx.vout ≡ record { value = (pos 7); pubkey_hash = plain_sha alice } ∷ [])
    × ((k : Bytes)
        → balance_of (get_at accounts d' root' k) ≡ balance_of (get_at accounts tries (0 ∷ []) k))
new_utxo_transaction-mints_example =
    new_utxo_transaction-mints plain_sha tx_hash accounts 1 2 (codes "bob") alice (pos 7) tries
      (0 ∷ []) (trie, false) refl bob_missing

set_stored : lookup (codes "t1") set ≡ some (output 1 ∷ output 2 ∷ output 3 ∷ [])
unfolding lookup bytes_beq
set_stored = refl

nonempty_t1 : codes "t1" ≢ []
nonempty_t1 e = cc

cb_missing : lookup (codes "cb") set ≡ none
unfolding lookup bytes_beq
cb_missing = refl

minted-is_coinbase : is_coinbase minted ≡ true
unfolding is_coinbase is_coinbase_of
minted-is_coinbase = refl

spending_is_not : is_coinbase spending ≡ false
unfolding is_coinbase is_coinbase_of
spending_is_not = refl

spend_inputs-drift_example :
    (s' : output_bucket.Store) × (spend_inputs output_bucket set
        ((citing (codes "t1") (pos 0)) ∷ (citing (codes "t1") (pos 2)) ∷ [])
      ≡ ok s')
    × (output_bucket.get s' (citing (codes "t1") (pos 0)).prev_tx_id
        ≡ entry (remove_at 0 (remove_at (suc 2) (output 1 ∷ output 2 ∷ output 3 ∷ []))))
spend_inputs-drift_example =
    spend_inputs-drift output_bucket set (citing (codes "t1") (pos 0)) (citing (codes "t1") (pos 2))
      0 2 (output 1 ∷ output 2 ∷ output 3 ∷ []) refl refl nonempty_t1 refl set_stored (omega arith)
      (omega arith)

update_utxo_set-coinbase_example : update_utxo_set output_bucket set block ≡ panic
update_utxo_set-coinbase_example =
    update_utxo_set-coinbase output_bucket set block minted spending (citing (codes "cb") (pos 0))
      [] [] refl minted-is_coinbase spending_is_not refl refl cb_missing

find_spendable_outputs-selects_example :
    let (accumulated, found) = find_spendable_outputs output_bucket set alice (pos 3) in
    (t left : List Entry) × (owned alice (output_bucket.cursor set) ≡ t ++ left)
    × (cited found ≡ ids_of t)
    × (accumulated ≡ sum_of t)
    × (((pos 3) ≤ℤ accumulated) ⊎ (left ≡ []))
find_spendable_outputs-selects_example =
    find_spendable_outputs-selects output_bucket set alice (pos 3)
