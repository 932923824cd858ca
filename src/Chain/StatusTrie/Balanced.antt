-- ===== src/Chain/StatusTrie/Balanced.antt =====
-- chain/utxo_set.go: `AddUTXO2StatusTrie` keeps each balance equal to the sum of the outputs.
use utxo_block_emulator.Base.{
  ℕ, suc, ◌≤◌, List, [], ◌∷◌, true, false, Option, none, some, ◌≡◌, refl, sym, ap, ◌∙◌, Bytes,
  bytes_eq, ◌==◌, eq_iff, arith, Bool-cases, Option-cases, some-inj, inl, inr, subst, nat_eq,
}
use utxo_block_emulator.Base.Int.{ℤ, pos, ◌+ℤ◌, +ℤ_assoc, +ℤ_zero, int_laws, int_eq}
use utxo_block_emulator.Base.GoMap.{lookup, insert, lookup-insert, lookup-insert_self}
use utxo_block_emulator.Base.Outcome.{ok, ok-injective}
use utxo_block_emulator.Core.Account.{UtxoAccountState}
use utxo_block_emulator.Core.UtxoTransaction.{UtxoTransaction, TxOut}
use utxo_block_emulator.Chain.TrieDb.{TrieDb, get_at, change_lem, change-is_dirty}
use utxo_block_emulator.Chain.StatusTrie.{
  Outputs, Utxos, receive, account_or_new, add_output, add_outputs, add_utxo_to_status_trie,
}
use utxo_block_emulator.Chain.StatusTrie.Entries.{entries_of, entries, sum_of, sum_of-append}
use utxo_block_emulator.Chain.StatusTrie.Spend.{IsBalanced}

sum_insert_index :
    (txid : Bytes) (index value : ℤ) (outs : Outputs)
    → lookup index outs ≡ none
    → sum_of (entries_of txid (insert index value outs)) ≡ sum_of (entries_of txid outs) +ℤ value
unfolding insert lookup
sum_insert_index txid index value [] h = omega int_laws
sum_insert_index txid index value ((i, v) ∷ outs) h = elim (Bool-cases (i == index)) [
  | inl e ↦ absurd (taken e)
  | inr e ↦
      rw (e, insert)
        (ap (λ n. v +ℤ n) (sum_insert_index txid index value outs (rw (e, lookup) at h))
          ∙ sym (+ℤ_assoc v (sum_of (entries_of txid outs)) value))
]
  where
    taken : (i == index) ≡ true → ⊥
    taken e = cc (rw (e, lookup) at h)

-- A new transaction's outputs, and a known one's with a new sum.
sum_insert_new :
    (txid : Bytes) (outs : Outputs) (m : Utxos)
    → lookup txid m ≡ none
    → sum_of (entries (insert txid outs m)) ≡ sum_of (entries m) +ℤ sum_of (entries_of txid outs)
unfolding insert lookup
sum_insert_new txid outs [] h = sum_of-append (entries_of txid outs) [] ∙ omega int_laws
sum_insert_new txid outs ((t, os) ∷ m) h = elim (Bool-cases (t == txid)) [
  | inl e ↦ absurd (taken e)
  | inr e ↦
      rw (e, insert)
        (sum_of-append (entries_of t os) (entries (insert txid outs m))
          ∙ ap (λ n. sum_of (entries_of t os) +ℤ n)
              (sum_insert_new txid outs m (rw (e, lookup) at h))
          ∙ sym (
              +ℤ_assoc (sum_of (entries_of t os)) (sum_of (entries m))
                (sum_of (entries_of txid outs)))
          ∙ ap (λ n. n +ℤ sum_of (entries_of txid outs))
              (sym (sum_of-append (entries_of t os) (entries m))))
]
  where
    taken : (t == txid) ≡ true → ⊥
    taken e = cc (rw (e, lookup) at h)

swap_last : (a b v : ℤ) → (a +ℤ v) +ℤ b ≡ (a +ℤ b) +ℤ v
swap_last a b v = omega int_laws

sum_insert_known :
    (txid : Bytes) (value : ℤ) (outs outs' : Outputs) (m : Utxos)
    → lookup txid m ≡ some outs
    → sum_of (entries_of txid outs') ≡ sum_of (entries_of txid outs) +ℤ value
    → sum_of (entries (insert txid outs' m)) ≡ sum_of (entries m) +ℤ value
unfolding insert lookup
sum_insert_known txid value outs outs' [] h k = cc
sum_insert_known txid value outs outs' ((t, os) ∷ m) h k = elim (Bool-cases (t == txid)) [
  | inl e ↦
      rw (e, insert)
        (sum_of-append (entries_of txid outs') (entries m)
          ∙ ap (λ n. n +ℤ sum_of (entries m)) (k ∙ ap (λ n. n +ℤ value) (same e))
          ∙ swap_last (sum_of (entries_of t os)) (sum_of (entries m)) value
          ∙ ap (λ n. n +ℤ value) (sym (sum_of-append (entries_of t os) (entries m))))
  | inr e ↦
      rw (e, insert)
        (sum_of-append (entries_of t os) (entries (insert txid outs' m))
          ∙ ap (λ n. sum_of (entries_of t os) +ℤ n)
              (sum_insert_known txid value outs outs' m (rw (e, lookup) at h) k)
          ∙ sym (+ℤ_assoc (sum_of (entries_of t os)) (sum_of (entries m)) value)
          ∙ ap (λ n. n +ℤ value) (sym (sum_of-append (entries_of t os) (entries m))))
]
  where
    same : (t == txid) ≡ true → sum_of (entries_of txid outs) ≡ sum_of (entries_of t os)
    same e =
        ap (λ j. sum_of (entries_of j outs)) (sym ((eq_iff t txid).0 e))
        ∙ ap (λ o. sum_of (entries_of t o)) (sym (inner e))
      where
        inner : (t == txid) ≡ true → os ≡ outs
        inner e = cc (rw (e, lookup) at h)

-- The output that an account holds at an index of a transaction.
abbrev pub slot : Bytes → ℤ → Utxos → Option ℤ
slot txid index utxos = elim (lookup txid utxos) [ none ↦ none | some outs ↦ lookup index outs ]

add_output-sum :
    (txid : Bytes) (index value : ℤ) (utxos : Utxos)
    → slot txid index utxos ≡ none
    → sum_of (entries (add_output txid index value utxos)) ≡ sum_of (entries utxos) +ℤ value
add_output-sum txid index value utxos free = elim (Option-cases (lookup txid utxos)) [
  | inl e ↦
      rw (e, add_output)
        (sum_insert_new txid ((index, value) ∷ []) utxos e
          ∙ ap (λ n. sum_of (entries utxos) +ℤ n) (+ℤ_zero value))
  | inr (outs, e) ↦
      rw (e, add_output)
        (sum_insert_known txid value outs (insert index value outs) utxos e
          (sum_insert_index txid index value outs (rw (e, slot) at free)))
]

-- Adding at one index fills no other index of the transaction.
add_output-slot :
    (txid : Bytes) (i j value : ℤ) (utxos : Utxos)
    → (i == j) ≡ false
    → slot txid j (add_output txid i value utxos) ≡ slot txid j utxos
unfolding lookup
add_output-slot txid i j value utxos ne = elim (Option-cases (lookup txid utxos)) [
  | inl e ↦
      rw (e, add_output) (rw (lookup-insert_self txid ((i, value) ∷ []) utxos, e, slot) (rw ne))
  | inr (outs, e) ↦
      rw (e, add_output)
        (rw (lookup-insert_self txid (insert i value outs) utxos, e, slot)
          (lookup-insert i j value outs ∙ rw ne))
]

-- A balanced account that holds no output of `txid` at the index or later.
record IsOpen (txid : Bytes) (index : ℕ) (s : UtxoAccountState) : Type 0 where
  balanced : IsBalanced s
  free : (j : ℕ) → index ≤ j → slot txid (pos j) s.utxos ≡ none

receive-IsOpen :
    (txid : Bytes) (index : ℕ) (value : ℤ) (s : UtxoAccountState)
    → IsOpen txid index s
    → IsOpen txid (suc index) (receive txid (pos index) value s)
unfolding receive
receive-IsOpen txid index value s v = record {
  balanced =
      ap (λ n. n +ℤ value) v.balanced
      ∙ sym (add_output-sum txid (pos index) value s.utxos (v.free index (omega arith)));
  free = λ j le.
      add_output-slot txid (pos index) (pos j) value s.utxos (ground arith)
      ∙ v.free j (omega arith);
}

account_or_new-IsOpen :
    (txid : Bytes) (index nonce : ℕ) (k : Bytes) (a : Option UtxoAccountState)
    → ((s : UtxoAccountState) → a ≡ some s → IsOpen txid index s)
    → IsOpen txid index (account_or_new nonce k a)
unfolding lookup
account_or_new-IsOpen txid index nonce k none h = record { balanced = refl; free = λ j le. refl }
account_or_new-IsOpen txid index nonce k (some s) h = h s refl

module _ (D : TrieDb UtxoAccountState) where
  open D use {Db, Trie, open_at, get, update}

  abbrev AllOpen : Bytes → ℕ → Trie → Type 0
  AllOpen txid index st =
      (k : Bytes) (s : UtxoAccountState) → get st k ≡ some s → IsOpen txid index s

  IsOpen-suc :
      (txid : Bytes) (index : ℕ) (s : UtxoAccountState)
      → IsOpen txid index s
      → IsOpen txid (suc index) s
  IsOpen-suc txid index s v = record {
    balanced = v.balanced;
    free = λ j le. v.free j (omega arith);
  }

  step-AllOpen :
      (txid : Bytes) (nonce index : ℕ) (o : TxOut) (st : Trie)
      → AllOpen txid index st
      → AllOpen txid (suc index) (
          update st o.pubkey_hash (
            receive txid
              (pos index)
              o.value
              (account_or_new nonce o.pubkey_hash (get st o.pubkey_hash))))
  step-AllOpen txid nonce index o st all k s e = elim (Bool-cases (o.pubkey_hash == k)) [
    | inl hit ↦ subst (IsOpen txid (suc index)) (some-inj (rw (D.get-update, hit) at e)) (
        receive-IsOpen txid index o.value _ (
          account_or_new-IsOpen txid index nonce o.pubkey_hash (get st o.pubkey_hash)
            (all o.pubkey_hash)))
    | inr miss ↦ IsOpen-suc txid index s (all k s (rw (D.get-update, miss) at e))
  ]

  add_outputs-AllOpen :
      (nonces : ℕ → ℕ) (txid : Bytes) (index : ℕ) (os : List TxOut) (st : Trie)
      → AllOpen txid index st
      → (k : Bytes) (s : UtxoAccountState) → get (add_outputs D nonces txid index os st) k ≡ some s
      → IsBalanced s
  unfolding add_outputs
  add_outputs-AllOpen nonces txid index [] st all k s e = (all k s e).balanced
  add_outputs-AllOpen nonces txid index (o ∷ os) st all k s e =
      add_outputs-AllOpen nonces txid (suc index) os _
        (step-AllOpen txid (nonces index) index o st all) k s e

  -- If every stored account's balance is the sum of its outputs and none holds an output of the
  -- transaction yet, then so it is of every account that is stored after the transaction is added.
  pub add_utxo_to_status_trie-IsBalanced :
      (nonces : ℕ → ℕ) (tx : UtxoTransaction) (d d' : Db) (root root' : Bytes) (t : Trie)
      → open_at d root ≡ some t
      → ((k : Bytes) (s : UtxoAccountState)
          → get t k ≡ some s
          → IsBalanced s × ((index : ℤ) → slot tx.tx_id index s.utxos ≡ none))
      → add_utxo_to_status_trie D nonces (some tx) d root ≡ ok (root', d')
      → (k : Bytes) (s : UtxoAccountState) → get_at D d' root' k ≡ some s
      → IsBalanced s
  unfolding add_utxo_to_status_trie
  add_utxo_to_status_trie-IsBalanced nonces tx d d' root root' t opened fresh done k s e =
      add_outputs-AllOpen nonces tx.tx_id 0 tx.vout t start k s (sym (same' k) ∙ e)
    where
      start : AllOpen tx.tx_id 0 t
      start k s e = record { balanced = (fresh k s e).0; free = λ j le. (fresh k s e).1 (pos j) }

      same' : (k : Bytes) → get_at D d' root' k ≡ get (add_outputs D nonces tx.tx_id 0 tx.vout t) k
      same' k =
          let (r, b, ran, same) =
            change_lem D (add_outputs D nonces tx.tx_id 0 tx.vout) d root t opened (
              change-is_dirty D (add_outputs D nonces tx.tx_id 0 tx.vout) d d' root root' t opened
                done) in
          let both : (r, b) ≡ (root', d') = ok-injective (sym ran ∙ done) in
          ap (λ p. get_at D p.1 p.0 k) (sym both) ∙ same k
