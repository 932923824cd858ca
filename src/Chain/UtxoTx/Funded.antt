-- ===== src/Chain/UtxoTx/Funded.antt =====
-- chain/blockchain.go: what `NewUTXOTransaction` cites, pays and mints.
use utxo_block_emulator.Base.{
  ℕ, List, [], ◌∷◌, ◌++◌, true, false, Option, none, some, ◌≡◌, refl, sym, ap, ◌∙◌, Bytes, bytes_eq,
  ◌==◌, if◌then◌else◌, eq_iff, arith, Bool-cases, Option-cases, inl, inr, nat_eq, All, ◌≢◌,
  some-inj,
}
use utxo_block_emulator.Base.Int.{
  ℤ, pos, ◌+ℤ◌, ◌≤ℤ◌, ◌<ℤ◌, ltb_ℤ, int_laws, int_eq, ◌-ℤ◌, ltb_ℤ→lt, parts_of_eq,
}
use utxo_block_emulator.Base.GoMap.{GoMap}
use utxo_block_emulator.Base.Outcome.{Outcome, ok}
use utxo_block_emulator.Core.Account.{UtxoAccountState}
use utxo_block_emulator.Core.UtxoTransaction.{UtxoTransaction, TxIn, TxOut, is_coinbase}
use utxo_block_emulator.Chain.TrieDb.{TrieDb, get_at, update-changes, commit_nodes-ok}
use utxo_block_emulator.Chain.StatusTrie.{
  spend, find_spendable_outputs_from_status_trie, new_account,
}
use utxo_block_emulator.Chain.StatusTrie.Entries.{Entry, entries, sum_of, ids_of, tagged, cited}
use utxo_block_emulator.Chain.StatusTrie.Spend.{IsBalanced, spend-splits, spend-IsBalanced}
use utxo_block_emulator.Chain.StatusTrie.Receive.{balance_of}
use utxo_block_emulator.Chain.UtxoTx.{
  inputs_of, inputs, outputs, build_tx, needs_coinbase, coinbase_for, assemble,
  new_utxo_transaction,
}

-- The output that an input names.
abbrev pub names_of : List TxIn → List (Bytes × ℤ)
names_of [] = []
names_of (i ∷ is) = (i.prev_tx_id, i.index) ∷ names_of is

abbrev pub paid : List TxOut → ℤ
paid [] = pos 0
paid (o ∷ os) = o.value +ℤ paid os

names_of-inputs_of :
    (pubkey txid : Bytes) (is : List ℤ) (rest : List TxIn)
    → names_of (inputs_of pubkey txid is ++ rest) ≡ tagged txid is ++ names_of rest
names_of-inputs_of pubkey txid [] rest = refl
names_of-inputs_of pubkey txid (i ∷ is) rest =
    ap (◌∷◌ (txid, i)) (names_of-inputs_of pubkey txid is rest)

names_of-inputs : (pubkey : Bytes) (m : GoMap Bytes (List ℤ)) → names_of (inputs pubkey m) ≡ cited m
names_of-inputs pubkey [] = refl
names_of-inputs pubkey ((txid, is) ∷ m) =
    names_of-inputs_of pubkey txid is (inputs pubkey m)
    ∙ ap (◌++◌ (tagged txid is)) (names_of-inputs pubkey m)

-- The outputs add up to what was accumulated, if that is at least the amount.
paid-outputs :
    (acc amount : ℤ) (receiver sender : Bytes)
    → amount ≤ℤ acc
    → paid (outputs acc amount receiver sender) ≡ acc
paid-outputs acc amount receiver sender le = elim (Bool-cases (ltb_ℤ amount acc)) [
  | inl e ↦ rw e (omega int_laws)
  | inr e ↦ rw e (let same : amount ≡ acc = ground arith in omega int_laws ∙ same)
]

-- The receiver is paid first; what is left over goes to the sender.
outputs-pay :
    (acc amount : ℤ) (receiver sender : Bytes)
    → (change : List TxOut) × (outputs acc amount receiver sender
        ≡ record { value = amount; pubkey_hash = receiver } ∷ change)
      × All (λ o. (o.pubkey_hash ≡ sender) × (pos 0 <ℤ o.value)) change
outputs-pay acc amount receiver sender = elim (Bool-cases (ltb_ℤ amount acc)) [
  | inl e ↦ (
    record { value = acc -ℤ amount; pubkey_hash = sender } ∷ [],
    rw e refl,
    ((refl, left_over (ltb_ℤ→lt amount acc e)), tt),
  )
  | inr e ↦ ([], rw e refl, tt)
]
  where
    left_over : amount <ℤ acc → pos 0 <ℤ acc -ℤ amount
    left_over lt = omega int_laws

-- A positive amount that is covered lowers the balance.
spend-changes :
    (amount : ℤ) (s : UtxoAccountState)
    → IsBalanced s
    → pos 0 <ℤ amount
    → amount ≤ℤ s.balance
    → s ≢ (spend amount s).1
spend-changes amount s balanced positive covers same =
    let (t, outs, found, names, splits, sum, fell, ends) = spend-splits amount s in
    let (balanced', enough) = spend-IsBalanced amount s balanced covers in
    absurd (omega (int_laws, parts_of_eq (ap (λ x. x.balance) same ∙ fell), positive, enough))

enough→funded : (amount acc : ℤ) → pos 0 <ℤ amount → amount ≤ℤ acc → needs_coinbase acc ≡ false
enough→funded amount acc p le = ground arith

module _ (sha : Bytes → Bytes) (hash : UtxoTransaction → Bytes) (D : TrieDb UtxoAccountState) where
  open D use {Db, Trie, open_at, get, update}

  -- A positive amount that a balanced account covers is paid from the account: there is no coinbase;
  -- the inputs name, one by one, entries that the account held and no longer holds; the first output
  -- pays the amount to the receiver, any other pays a positive change to the sender, and all add up to
  -- the sum of the named entries; and of the stored accounts only the sender's changes, which stays
  -- balanced. (The root can be opened and holds the account.)
  pub new_utxo_transaction-conserves :
      (nonce coinbase_nonce : ℕ) (sender to : Bytes) (amount : ℤ) (d : Db) (root : Bytes)
      (st : Trie) (s : UtxoAccountState)
      → open_at d root ≡ some st
      → get st (sha sender) ≡ some s
      → IsBalanced s
      → pos 0 <ℤ amount
      → amount ≤ℤ s.balance
      → (tx : UtxoTransaction) × (root' : Bytes) × (d' : Db) × (t : List Entry)
        × (s' : UtxoAccountState) × (new_utxo_transaction sha hash D nonce coinbase_nonce sender to
              amount d root
            ≡ ok (some tx, none, root', d'))
        × (names_of tx.vin ≡ ids_of t)
        × (entries s.utxos ≡ t ++ entries s'.utxos)
        × ((change : List TxOut) × (tx.vout
              ≡ record { value = amount; pubkey_hash = sha to } ∷ change)
            × All (λ o. (o.pubkey_hash ≡ sha sender) × (pos 0 <ℤ o.value)) change)
        × (paid tx.vout ≡ sum_of t)
        × IsBalanced s'
        × ((k : Bytes)
            → get_at D d' root' k ≡ (if sha sender == k then some s' else get_at D d root k))
  unfolding new_utxo_transaction find_spendable_outputs_from_status_trie assemble build_tx
  new_utxo_transaction-conserves nonce coinbase_nonce sender to amount d root st s opened known
        balanced positive covers =
      let (t, outs, found, names, splits, sum, fell, ends) = spend-splits amount s in
      let (balanced', enough) = spend-IsBalanced amount s balanced covers in
      let (t', reopened, same) = D.open-commit d (update st (sha sender) (spend amount s).1) in
      let covered : ltb_ℤ s.balance amount ≡ false = ground arith in
      let dirty : D.is_dirty (update st (sha sender) (spend amount s).1) ≡ true =
        update-changes D st (sha sender) (spend amount s).1
          (λ e. spend-changes amount s balanced positive covers (some-inj (sym known ∙ e))) in
      let funded = enough→funded amount (spend amount s).0.accumulated positive enough in
      (
        build_tx sha hash sender to amount (spend amount s).0.accumulated outs,
        (D.commit d (update st (sha sender) (spend amount s).1)).0,
        (D.commit d (update st (sha sender) (spend amount s).1)).1,
        t,
        (spend amount s).1,
        rw (opened, known, covered, commit_nodes-ok D d _ dirty, funded, found) refl,
        names_of-inputs sender outs ∙ names,
        splits,
        outputs-pay (spend amount s).0.accumulated amount (sha to) (sha sender),
        paid-outputs (spend amount s).0.accumulated amount (sha to) (sha sender) enough ∙ sum,
        balanced',
        λ k. rw (reopened, get_at) (same k ∙ rw D.get-update (rw (opened, get_at) refl)),
      )

  -- The account is missing, or its balance is below the amount.
  abbrev pub IsUnfunded : Option UtxoAccountState → ℤ → Type 0
  IsUnfunded none amount = Unit
  IsUnfunded (some s) amount = s.balance <ℤ amount

  module _ (nonce coinbase_nonce : ℕ) (sender to : Bytes) (amount : ℤ) (d : Db) (root : Bytes)
      (st : Trie) (opened : open_at d root ≡ some st) where
    abbrev Result : Type 0
    Result = Option UtxoTransaction × Option UtxoTransaction × Bytes × Db

    abbrev result : Outcome Result
    result = new_utxo_transaction sha hash D nonce coinbase_nonce sender to amount d root

    abbrev coinbase : UtxoTransaction
    coinbase = coinbase_for sha hash coinbase_nonce sender amount

    abbrev spending : UtxoTransaction
    spending = build_tx sha hash sender to amount amount ((coinbase.tx_id, pos 0 ∷ []) ∷ [])

    abbrev Mints : Type 0
    Mints =
        (root' : Bytes) × (d' : Db) × (result ≡ ok (some spending, some coinbase, root', d'))
        × ((k : Bytes) → balance_of (get_at D d' root' k) ≡ balance_of (get_at D d root k))

    missing-Mints : get st (sha sender) ≡ none → Mints
    unfolding new_utxo_transaction find_spendable_outputs_from_status_trie assemble
    missing-Mints e =
        let (t', reopened, same) =
          D.open-commit d (update st (sha sender) (new_account nonce (sha sender))) in
        let dirty : D.is_dirty (update st (sha sender) (new_account nonce (sha sender))) ≡ true =
          update-changes D st (sha sender) (new_account nonce (sha sender))
            (λ h. absurd (ground (arith, (rw e at h)))) in
        (
          (D.commit d (update st (sha sender) (new_account nonce (sha sender)))).0,
          (D.commit d (update st (sha sender) (new_account nonce (sha sender)))).1,
          rw (opened, e, commit_nodes-ok D d _ dirty) refl,
          λ k. rw (reopened, opened, get_at) (ap balance_of (same k) ∙ rw D.get-update (zero k)),
        )
      where
        zero :
            (k : Bytes)
            → balance_of
                (if sha sender == k then some (new_account nonce (sha sender)) else get st k)
              ≡ balance_of (get st k)
        zero k = elim (Bool-cases (sha sender == k)) [
          | inl hit ↦
              rw hit (sym (ap balance_of (ap (get st) (sym ((eq_iff (sha sender) k).0 hit)) ∙ e)))
          | inr miss ↦ rw miss refl
        ]

    poor-Mints : (s : UtxoAccountState) → get st (sha sender) ≡ some s → s.balance <ℤ amount → Mints
    unfolding new_utxo_transaction find_spendable_outputs_from_status_trie assemble
    poor-Mints s e lt =
        let refused : ltb_ℤ s.balance amount ≡ true = ground arith in
        (root, d, rw (opened, e, refused) refl, λ k. refl)

    -- Where the root can be opened, a sender without an account, or with a balance below the amount, is
    -- not refused: a coinbase
    -- transaction mints the whole amount to the sender, and a second transaction cites that output
    -- alone and pays the whole amount to the receiver, with no change; no stored balance falls or rises.
    pub new_utxo_transaction-mints :
        IsUnfunded (get st (sha sender)) amount
        → (tx cb : UtxoTransaction) × (root' : Bytes) × (d' : Db) × (result
            ≡ ok (some tx, some cb, root', d'))
          × (is_coinbase cb ≡ true)
          × (cb.vout ≡ record { value = amount; pubkey_hash = sha sender } ∷ [])
          × (names_of tx.vin ≡ (cb.tx_id, pos 0) ∷ [])
          × (tx.vout ≡ record { value = amount; pubkey_hash = sha to } ∷ [])
          × ((k : Bytes) → balance_of (get_at D d' root' k) ≡ balance_of (get_at D d root k))
    unfolding coinbase_for build_tx is_coinbase
    new_utxo_transaction-mints poor =
        let (root', d', ran, same) = cases in
        (spending, coinbase, root', d', ran, refl, refl, refl, no_change, same)
      where
        cases : Mints
        cases = elim (Option-cases (get st (sha sender))) [
          | inl e ↦ missing-Mints e
          | inr (s, e) ↦ poor-Mints s e (rw e at poor)
        ]

        no_change :
            outputs amount amount (sha to) (sha sender)
            ≡ record { value = amount; pubkey_hash = sha to } ∷ []
        no_change = ground arith
