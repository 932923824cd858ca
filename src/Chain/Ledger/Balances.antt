-- ===== src/Chain/Ledger/Balances.antt =====
-- chain/blockchain.go: the loop of `GetUpdateStatusTrie` implements transfers on a table of balances.
use utxo_block_emulator.Base.{
  ℕ, suc, List, [], ◌∷◌, Bool, true, false, ◌||◌, ◌&&◌, not, Option, none, some, ◌≡◌, refl, ap, ◌∙◌,
  Bytes, bytes_eq, nat_eq, ◌==◌, if◌then◌else◌, Bool-cases, All, inl, inr,
}
use std.Path.{fun_ext, subst}
use utxo_block_emulator.Base.Int.{ℤ, ◌+ℤ◌, ◌-ℤ◌, ltb_ℤ}
use utxo_block_emulator.Base.Outcome.{Outcome, ok}
use utxo_block_emulator.Core.Account.{AccountState, deduct, deposit}
use utxo_block_emulator.Core.Transaction.{Transaction}
use utxo_block_emulator.Chain.TrieDb.{TrieDb}
use utxo_block_emulator.Chain.Ledger.{
  account_or_init, is_here, is_debited, credit, credit_if_here, debit, transfer, handle_tx,
  handle_txs,
}

-- The abstract state: every address has a balance.
abbrev pub Table : Type 0
Table = Bytes → ℤ

abbrev pub write : Bytes → ℤ → Table → Table
write k v b j = if k == j then v else b j

-- One transaction, on the shard where `home` holds of the addresses that live there. A relayed
-- transaction has been debited elsewhere; one that the sender cannot pay changes nothing.
abbrev pub credited : (Bytes → Bool) → Transaction → Table → Table
credited home tx b =
    if home tx.recipient || tx.has_broker
    then write tx.recipient (b tx.recipient +ℤ tx.value) b
    else b

abbrev pub transferred : (Bytes → Bool) → Transaction → Table → Table
transferred home tx b =
    if not tx.relayed && (home tx.sender || tx.has_broker)
    then (if ltb_ℤ (b tx.sender) tx.value
        then b
        else credited home tx (write tx.sender (b tx.sender -ℤ tx.value) b))
    else credited home tx b

abbrev pub all_transferred : (Bytes → Bool) → List Transaction → Table → Table
all_transferred home [] b = b
all_transferred home (tx ∷ txs) b = all_transferred home txs (transferred home tx b)

-- The balance of an account that may not be stored.
abbrev pub balance_or : ℤ → Option AccountState → ℤ
balance_or init none = init
balance_or init (some s) = s.balance

balance-or_init :
    (init : ℤ) (i : ℕ) (a : Option AccountState)
    → (account_or_init init i a).balance ≡ balance_or init a
balance-or_init init i none = refl
balance-or_init init i (some s) = refl

balance_or-if :
    (init : ℤ) (b : Bool) (s : AccountState) (a : Option AccountState)
    → balance_or init (if b then some s else a) ≡ (if b then s.balance else balance_or init a)
balance_or-if init true s a = refl
balance_or-if init false s a = refl

module _ (D : TrieDb AccountState) (init : ℤ) where
  -- The table that a trie stands for: an address that is not stored has the initial balance.
  abbrev pub table : D.Trie → Table
  table st k = balance_or init (D.get st k)

  table-update :
      (st : D.Trie) (k : Bytes) (s : AccountState)
      → table (D.update st k s) ≡ write k s.balance (table st)
  table-update st k s = fun_ext (λ j.
      ap (balance_or init) (D.get-update st k j s) ∙ balance_or-if init (k == j) s (D.get st j))

-- The parties' shards are known: by the map, or as the default of the address.
abbrev pub IsPlaced : (Bytes → Outcome ℕ) → (Bytes → ℕ) → Transaction → Type 0
IsPlaced partition shard_of tx =
    (partition tx.sender ≡ ok (shard_of tx.sender))
    × (partition tx.recipient ≡ ok (shard_of tx.recipient))

module _ (D : TrieDb AccountState) (partition : Bytes → Outcome ℕ) (init : ℤ) (shard_id : ℕ) where
  table-credit :
      (i : ℕ) (tx : Transaction) (s : D.Trie × ℕ)
      → table D init (credit D partition init shard_id i tx s).0
        ≡ write tx.recipient (table D init s.0 tx.recipient +ℤ tx.value) (table D init s.0)
  unfolding credit deposit
  table-credit i tx (st, cnt) =
      table-update D init st tx.recipient
        (deposit (account_or_init init i (D.get st tx.recipient)) tx.value)
      ∙ ap (λ b. write tx.recipient (b +ℤ tx.value) (table D init st))
          (balance-or_init init i (D.get st tx.recipient))

  table-debit :
      (i : ℕ) (tx : Transaction) (s : D.Trie × ℕ)
      → ltb_ℤ (table D init s.0 tx.sender) tx.value ≡ false
      → table D init (debit D partition init shard_id i tx s).0
        ≡ write tx.sender (table D init s.0 tx.sender -ℤ tx.value) (table D init s.0)
  unfolding debit deduct
  table-debit i tx (st, cnt) h =
      table-update D init st tx.sender
        (deduct (account_or_init init i (D.get st tx.sender)) tx.value).0
      ∙ rw (balance-or_init init i (D.get st tx.sender), h) refl

  module _ (shard_of : Bytes → ℕ) where
    home : Bytes → Bool
    home a = shard_of a == shard_id

    -- The result is a trie whose table is `b`.
    Holds : Outcome (D.Trie × ℕ) → Table → Type 0
    Holds m b = (s : D.Trie × ℕ) × (m ≡ ok s) × (table D init s.0 ≡ b)

    is_here_lem :
        (a : Bytes) (tx : Transaction)
        → partition a ≡ ok (shard_of a)
        → is_here D partition init shard_id a tx ≡ ok (home a || tx.has_broker)
    unfolding home
    is_here_lem a tx e = rw (is_here, e) refl

    credit_if_here-Holds :
        (i : ℕ) (tx : Transaction) (s : D.Trie × ℕ)
        → partition tx.recipient ≡ ok (shard_of tx.recipient)
        → Holds
            (credit_if_here D partition init shard_id i tx s)
            (credited home tx (table D init s.0))
    unfolding Holds credit_if_here
    credit_if_here-Holds i tx s e = elim (Bool-cases (home tx.recipient || tx.has_broker)) [
      | inl h ↦ (
        credit D partition init shard_id i tx s,
        rw (is_here_lem tx.recipient tx e, h) refl,
        rw (credited, h) (table-credit i tx s),
      )
      | inr h ↦ (s, rw (is_here_lem tx.recipient tx e, h) refl, rw (credited, h) refl)
    ]

    credited-Holds :
        (i : ℕ) (tx : Transaction) (s : D.Trie × ℕ) (b : Table)
        → partition tx.recipient ≡ ok (shard_of tx.recipient)
        → table D init s.0 ≡ b
        → Holds (credit_if_here D partition init shard_id i tx s) (credited home tx b)
    credited-Holds i tx s b e same =
        subst (λ b'. Holds (credit_if_here D partition init shard_id i tx s) (credited home tx b'))
          same (credit_if_here-Holds i tx s e)

    transfer-paid :
        (i : ℕ) (tx : Transaction) (s : D.Trie × ℕ)
        → ltb_ℤ (table D init s.0 tx.sender) tx.value ≡ false
        → transfer D partition init shard_id i tx true s
          ≡ credit_if_here D partition init shard_id i tx (debit D partition init shard_id i tx s)
    unfolding transfer
    transfer-paid i tx (st, cnt) h = rw (balance-or_init init i (D.get st tx.sender), h) refl

    transfer-unpaid :
        (i : ℕ) (tx : Transaction) (s : D.Trie × ℕ)
        → ltb_ℤ (table D init s.0 tx.sender) tx.value ≡ true
        → transfer D partition init shard_id i tx true s ≡ ok s
    unfolding transfer
    transfer-unpaid i tx (st, cnt) h = rw (balance-or_init init i (D.get st tx.sender), h) refl

    transfer-Holds :
        (i : ℕ) (tx : Transaction) (s : D.Trie × ℕ)
        → partition tx.recipient ≡ ok (shard_of tx.recipient)
        → Holds (transfer D partition init shard_id i tx true s) (
            if ltb_ℤ (table D init s.0 tx.sender) tx.value
            then table D init s.0
            else credited home tx
                (write tx.sender (table D init s.0 tx.sender -ℤ tx.value) (table D init s.0)))
    unfolding Holds
    transfer-Holds i tx s e = elim (Bool-cases (ltb_ℤ (table D init s.0 tx.sender) tx.value)) [
      | inl h ↦ (s, transfer-unpaid i tx s h, rw h refl)
      | inr h ↦
          let (s', made, same) =
            credited-Holds i tx (debit D partition init shard_id i tx s)
              (write tx.sender (table D init s.0 tx.sender -ℤ tx.value) (table D init s.0)) e
              (table-debit i tx s h) in
          (s', transfer-paid i tx s h ∙ made, rw h same)
    ]

    transfer-relayed :
        (i : ℕ) (tx : Transaction) (s : D.Trie × ℕ)
        → transfer D partition init shard_id i tx false s
          ≡ credit_if_here D partition init shard_id i tx s
    unfolding transfer
    transfer-relayed i tx s = refl

    is_debited_lem :
        (tx : Transaction)
        → partition tx.sender ≡ ok (shard_of tx.sender)
        → is_debited D partition init shard_id tx
          ≡ ok (not tx.relayed && (home tx.sender || tx.has_broker))
    is_debited_lem tx e = elim (Bool-cases tx.relayed) [
      | inl r ↦ rw (is_debited, r) refl
      | inr r ↦ rw (is_debited, r, is_here_lem tx.sender tx e) refl
    ]

    handle_tx_lem :
        (i : ℕ) (tx : Transaction) (s : D.Trie × ℕ)
        → IsPlaced partition shard_of tx
        → Holds
            (handle_tx D partition init shard_id i tx s)
            (transferred home tx (table D init s.0))
    unfolding handle_tx
    handle_tx_lem i tx s (at, to) =
        elim (Bool-cases (not tx.relayed && (home tx.sender || tx.has_broker))) [
          | inl h ↦ rw (transferred, is_debited_lem tx at, h) (transfer-Holds i tx s to)
          | inr h ↦
              rw (transferred, is_debited_lem tx at, h, transfer-relayed)
                (credit_if_here-Holds i tx s to)
        ]

    -- `GetUpdateStatusTrie`'s loop, over transactions whose parties' shards are known, ends, and its
    -- trie stands for the table after the transfers, one after another: each moves its value where both
    -- parties live here, debits or credits the party that lives here, and does nothing where the sender
    -- lives here and has too little.
    pub handle_txs-transfers :
        (i : ℕ) (txs : List Transaction) (s : D.Trie × ℕ)
        → All (IsPlaced partition shard_of) txs
        → (s' : D.Trie × ℕ) × (handle_txs D partition init shard_id i txs s ≡ ok s')
          × (table D init s'.0
              ≡ all_transferred (λ a. shard_of a == shard_id) txs (table D init s.0))
    unfolding handle_txs Holds home
    handle_txs-transfers i [] s h = (s, refl, refl)
    handle_txs-transfers i (tx ∷ txs) s (placed, h) =
        let (s1, made, same) = handle_tx_lem i tx s placed in
        let (s2, made2, same2) = handle_txs-transfers (suc i) txs s1 h in
        (s2, rw made made2, same2 ∙ ap (all_transferred (λ a. shard_of a == shard_id) txs) same)
