-- ===== src/Chain/StatusTrie/Receive.antt =====
-- chain/utxo_set.go: `AddUTXO2StatusTrie` as an operation on balances.
use utxo_block_emulator.Base.{
  ℕ, suc, List, [], ◌∷◌, Option, none, some, ◌≡◌, refl, sym, ap, ◌∙◌, Bytes, bytes_eq, ◌==◌,
  if◌then◌else◌, eq_iff, Bool-cases, inl, inr, ◌≢◌, true, false,
}
use utxo_block_emulator.Base.Int.{ℤ, pos, ◌+ℤ◌, +ℤ_assoc, +ℤ_zero, +ℤ-same}
use utxo_block_emulator.Base.Outcome.{ok}
use utxo_block_emulator.Core.Account.{UtxoAccountState}
use utxo_block_emulator.Core.UtxoTransaction.{UtxoTransaction, TxOut}
use utxo_block_emulator.Chain.TrieDb.{TrieDb, get_at, change_lem, update-held}
use utxo_block_emulator.Chain.StatusTrie.{
  receive, account_or_new, add_outputs, add_utxo_to_status_trie,
}

-- A missing account has nothing.
abbrev pub balance_of : Option UtxoAccountState → ℤ
balance_of none = pos 0
balance_of (some s) = s.balance

-- What a transaction pays to a key.
abbrev pub paid_to : Bytes → List TxOut → ℤ
paid_to k [] = pos 0
paid_to k (o ∷ os) = (if o.pubkey_hash == k then o.value else pos 0) +ℤ paid_to k os

account_or_new-balance :
    (nonce : ℕ) (k : Bytes) (a : Option UtxoAccountState)
    → (account_or_new nonce k a).balance ≡ balance_of a
account_or_new-balance nonce k none = refl
account_or_new-balance nonce k (some s) = refl

module _ (D : TrieDb UtxoAccountState) where
  open D use {Db, Trie, open_at, get, update}

  add_output-balance :
      (txid : Bytes) (nonce index : ℕ) (o : TxOut) (st : Trie) (k : Bytes)
      → let s = account_or_new nonce o.pubkey_hash (get st o.pubkey_hash) in
        balance_of (get (update st o.pubkey_hash (receive txid (pos index) o.value s)) k)
        ≡ balance_of (get st k) +ℤ (if o.pubkey_hash == k then o.value else pos 0)
  unfolding receive
  add_output-balance txid nonce index o st k = elim (Bool-cases (o.pubkey_hash == k)) [
    | inl e ↦
        rw (D.get-update, e)
          (ap (λ n. n +ℤ o.value)
            (account_or_new-balance nonce o.pubkey_hash (get st o.pubkey_hash)
              ∙ ap (λ j. balance_of (get st j)) ((eq_iff o.pubkey_hash k).0 e)))
    | inr e ↦ rw (D.get-update, e) (sym (+ℤ_zero (balance_of (get st k))))
  ]

  add_outputs-balance :
      (nonces : ℕ → ℕ) (txid : Bytes) (index : ℕ) (os : List TxOut) (st : Trie) (k : Bytes)
      → balance_of (get (add_outputs D nonces txid index os st) k)
        ≡ balance_of (get st k) +ℤ paid_to k os
  unfolding add_outputs
  add_outputs-balance nonces txid index [] st k = sym (+ℤ_zero (balance_of (get st k)))
  add_outputs-balance nonces txid index (o ∷ os) st k =
      add_outputs-balance nonces txid (suc index) os _ k
      ∙ ap (λ n. n +ℤ paid_to k os) (add_output-balance txid (nonces index) index o st k)
      ∙ +ℤ_assoc (balance_of (get st k)) _ (paid_to k os)

  -- What is clean after the outputs are added is as it was.
  add_outputs-clean :
      (nonces : ℕ → ℕ) (txid : Bytes) (index : ℕ) (os : List TxOut) (st : Trie)
      → D.is_dirty (add_outputs D nonces txid index os st) ≡ false
      → (D.is_dirty st ≡ false)
        × ((k : Bytes) → get (add_outputs D nonces txid index os st) k ≡ get st k)
  unfolding add_outputs
  add_outputs-clean nonces txid index [] st h = (h, λ k. refl)
  add_outputs-clean nonces txid index (o ∷ os) st h =
      let s =
        receive txid (pos index) o.value
          (account_or_new (nonces index) o.pubkey_hash (get st o.pubkey_hash)) in
      let (h', same) = add_outputs-clean nonces txid (suc index) os (update st o.pubkey_hash s) h in
      let (before, found) = D.update-is_dirty st o.pubkey_hash s h' in
      (before, λ k. same k ∙ update-held D st o.pubkey_hash s found k)

  -- Adding a transaction that pays some key a sum that is not 0 to a trie that can be opened succeeds,
  -- and raises the balance of every key by what the transaction's outputs pay to it.
  pub add_utxo_to_status_trie_pays :
      (nonces : ℕ → ℕ) (tx : UtxoTransaction) (d : Db) (root : Bytes) (t : Trie) (paid : Bytes)
      → open_at d root ≡ some t
      → paid_to paid tx.vout ≢ pos 0
      → (root' : Bytes) × (d' : Db) × (add_utxo_to_status_trie D nonces (some tx) d root
          ≡ ok (root', d'))
        × ((k : Bytes)
            → balance_of (get_at D d' root' k)
              ≡ balance_of (get_at D d root k) +ℤ paid_to k tx.vout)
  unfolding add_utxo_to_status_trie
  add_utxo_to_status_trie_pays nonces tx d root t paid e some_paid =
      let (root', d', done, same) =
        change_lem D (add_outputs D nonces tx.tx_id 0 tx.vout) d root t e changed in
      (root', d', done, λ k. ap balance_of (same k) ∙ added k)
    where
      after : Trie
      after = add_outputs D nonces tx.tx_id 0 tx.vout t

      changed : D.is_dirty after ≡ true
      changed = elim (Bool-cases (D.is_dirty after)) [
        | inl b ↦ b
        | inr b ↦ absurd (
            some_paid (
              +ℤ-same (balance_of (get t paid)) (paid_to paid tx.vout) (
                sym (add_outputs-balance nonces tx.tx_id 0 tx.vout t paid)
                ∙ ap balance_of ((add_outputs-clean nonces tx.tx_id 0 tx.vout t b).1 paid))))
      ]

      added :
          (k : Bytes)
          → balance_of (get (add_outputs D nonces tx.tx_id 0 tx.vout t) k)
            ≡ balance_of (get_at D d root k) +ℤ paid_to k tx.vout
      added k = rw (e, get_at) (add_outputs-balance nonces tx.tx_id 0 tx.vout t k)
