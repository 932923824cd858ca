-- ===== src/Pbft/Clpa/Moves.antt =====
-- consensus_shard/pbft_all/accountTransfer_module.go: which transactions `sendAccounts_and_Txs` sends, and that the
-- main node that gets them takes them.
use utxo_block_emulator.Base.{
  ℕ, zero, suc, ◌+◌, ◌≤◌, ◌<◌, ◌≡◌, ◌≢◌, refl, sym, ap, ◌∙◌, subst, arith, List, [], ◌∷◌, Bool,
  true, false, some, length, keep, All, Bool-cases, inl, inr, if◌then◌else◌, Bytes, bytes_eq,
  nat_eq, ◌==◌, eq_iff, get_elem?,
}
use utxo_block_emulator.Base.GoMap
use utxo_block_emulator.Base.GoMap.{GoMap}
use utxo_block_emulator.Base.Outcome.{ok}
use utxo_block_emulator.Core.Account.{AccountState}
use utxo_block_emulator.Core.Transaction.{Transaction}
use utxo_block_emulator.Pbft.Clpa.{ClpaOut, accounts_to}
use utxo_block_emulator.Pbft.Clpa.Transfer.{
  contains, select_accounts, goes_along, compact, send_to_shards, decisive, check_txs,
}
use utxo_block_emulator.Pbft.Clpa.Compact.{stays, compact-filters}
use utxo_block_emulator.Pbft.Clpa.Selected.{
  sent_txs, IsFor, All-keep, All-kept, All-swap, All-map, length-keep_append, length-keep_split,
  goes-decisive, select-moves, select-all,
}

module _ (m : GoMap Bytes ℕ) (shard_id : ℕ) (addrs : List Bytes) (states : List AccountState) where
  abbrev chosen : ℕ → List Bytes
  chosen i = (select_accounts m i addrs states).0

  -- One round of the loop over the shards.
  abbrev turn :
      (rounds i : ℕ) → List Transaction × List Transaction → List Transaction × List ClpaOut
  turn rounds i (left, tx_send) =
      let rest = send_to_shards m shard_id addrs states rounds (suc i) left in
      (
        rest.0,
        accounts_to i (record {
          addrs = chosen i;
          account_state = (select_accounts m i addrs states).1;
          txs = tx_send;
          from_shard = shard_id;
        })
            ∷ rest.1,
      )

  -- The round of another shard, by the two filters.
  send_to_shards-turn :
      (rounds i : ℕ) (queue : List Transaction)
      → (i == shard_id) ≡ false
      → send_to_shards m shard_id addrs states (suc rounds) i queue
        ≡ turn rounds i
            (keep (stays (goes_along (chosen i))) queue, keep (goes_along (chosen i)) queue)
  unfolding send_to_shards
  send_to_shards-turn rounds i queue e =
      ap
        (λ b.
          if b
          then send_to_shards m shard_id addrs states rounds (suc i) queue
          else turn rounds i (compact (goes_along (chosen i)) (length queue) 0 0 queue []))
        e
      ∙ ap (turn rounds i) (compact-filters (goes_along (chosen i)) queue)

  send_to_shards-zero :
      (i : ℕ) (queue : List Transaction)
      → send_to_shards m shard_id addrs states zero i queue ≡ (queue, [])
  unfolding send_to_shards
  send_to_shards-zero i queue = refl

  send_to_shards-skip :
      (rounds i : ℕ) (queue : List Transaction)
      → (i == shard_id) ≡ true
      → send_to_shards m shard_id addrs states (suc rounds) i queue
        ≡ send_to_shards m shard_id addrs states rounds (suc i) queue
  unfolding send_to_shards
  send_to_shards-skip rounds i queue e =
      ap
        (λ b.
          if b
          then send_to_shards m shard_id addrs states rounds (suc i) queue
          else turn rounds i (compact (goes_along (chosen i)) (length queue) 0 0 queue []))
        e

  -- Of each kind of transaction, as many are left and sent as there were.
  pub send_to_shards-counts :
      (p : Transaction → Bool) (rounds i : ℕ) (queue : List Transaction)
      → length (keep p queue)
        ≡ length (keep p (send_to_shards m shard_id addrs states rounds i queue).0)
          + length (keep p (sent_txs (send_to_shards m shard_id addrs states rounds i queue).1))
  send_to_shards-counts p zero i queue = rw (send_to_shards-zero i queue) (omega arith)
  send_to_shards-counts p (suc rounds) i queue = elim (Bool-cases (i == shard_id)) [
    | inl e ↦
        rw (send_to_shards-skip rounds i queue e) (send_to_shards-counts p rounds (suc i) queue)
    | inr e ↦
        let goes = goes_along (chosen i) in
        let rest =
          send_to_shards m shard_id addrs states rounds (suc i) (keep (stays goes) queue) in
        rw (send_to_shards-turn rounds i queue e) (
          omega (
            arith,
            length-keep_split goes p queue,
            send_to_shards-counts p rounds (suc i) (keep (stays goes) queue),
            length-keep_append p (keep goes queue) (sent_txs rest.1),
          ))
  ]

  pub send_to_shards-IsFor :
      (rounds i : ℕ) (queue : List Transaction)
      → All (IsFor m) (send_to_shards m shard_id addrs states rounds i queue).1
  send_to_shards-IsFor zero i queue = rw (send_to_shards-zero i queue) tt
  send_to_shards-IsFor (suc rounds) i queue = elim (Bool-cases (i == shard_id)) [
    | inl e ↦ rw (send_to_shards-skip rounds i queue e) (send_to_shards-IsFor rounds (suc i) queue)
    | inr e ↦ rw (send_to_shards-turn rounds i queue e) (
      All-keep (λ tx. GoMap.get_or (decisive tx) 0 m ≡ i) (goes_along (chosen i)) queue
          (λ tx h.
            select-moves m i addrs states (decisive tx) (sym (goes-decisive (chosen i) tx) ∙ h)),
      send_to_shards-IsFor rounds (suc i) (keep (stays (goes_along (chosen i))) queue),
    )
  ]

  left-All :
      (P : Transaction → Type 0) (rounds i : ℕ) (queue : List Transaction)
      → All P queue
      → All P (send_to_shards m shard_id addrs states rounds i queue).0
  left-All P zero i queue h = rw (send_to_shards-zero i queue) h
  left-All P (suc rounds) i queue h = elim (Bool-cases (i == shard_id)) [
    | inl e ↦ rw (send_to_shards-skip rounds i queue e) (left-All P rounds (suc i) queue h)
    | inr e ↦ rw (send_to_shards-turn rounds i queue e) (
        left-All P rounds (suc i) (keep (stays (goes_along (chosen i))) queue)
          (All-kept P (stays (goes_along (chosen i))) queue h))
  ]

  abbrev Avoids : ℕ → Transaction → Type 0
  Avoids j tx = contains (chosen j) (decisive tx) ≡ false

  stays-Avoids : (j : ℕ) (tx : Transaction) → stays (goes_along (chosen j)) tx ≡ true → Avoids j tx
  stays-Avoids j tx h = sym (goes-decisive (chosen j) tx) ∙ ground (arith, h)

  left-Avoids :
      (rounds i j : ℕ) (queue : List Transaction)
      → i ≤ j
      → j < i + rounds
      → j ≢ shard_id
      → All (Avoids j) (send_to_shards m shard_id addrs states rounds i queue).0
  left-Avoids zero i j queue low high other = absurd (omega arith)
  left-Avoids (suc rounds) i j queue low high other = elim (Bool-cases (i == shard_id)) [
    | inl e ↦
        let differ : i ≢ j = λ s. other (sym s ∙ (eq_iff i shard_id).0 e) in
        rw (send_to_shards-skip rounds i queue e)
          (left-Avoids rounds (suc i) j queue (omega arith) (omega arith) other)
    | inr e ↦ rw (send_to_shards-turn rounds i queue e) (elim (Bool-cases (i == j)) [
      | inl s ↦ left-All (Avoids j) rounds (suc i) (keep (stays (goes_along (chosen i))) queue) (
          subst (λ k. All (Avoids j) (keep (stays (goes_along (chosen k))) queue))
            (sym ((eq_iff i j).0 s))
            (All-keep (Avoids j) (stays (goes_along (chosen j))) queue (stays-Avoids j)))
      | inr s ↦
          let differ : i ≢ j = λ t. ground (arith, (eq_iff i j).1 t, s) in
          left-Avoids rounds (suc i) j (keep (stays (goes_along (chosen i))) queue) (omega arith)
            (omega arith) other
    ])
  ]

  -- No transaction that is left is decided by an account that moves to another shard.
  pub left-IsClear :
      (rounds : ℕ) (queue : List Transaction)
      → length addrs ≡ length states
      → ((a : Bytes)
          → contains addrs a ≡ true
          → (GoMap.get_or a 0 m ≢ shard_id) × (GoMap.get_or a 0 m < rounds))
      → All
          (λ tx. contains addrs (decisive tx) ≡ false)
          (send_to_shards m shard_id addrs states rounds 0 queue).0
  left-IsClear rounds queue l moves =
      All-map (λ tx. (j : ℕ) → (j ≢ shard_id) × (j < rounds) → Avoids j tx)
        (λ tx. contains addrs (decisive tx) ≡ false)
        (send_to_shards m shard_id addrs states rounds 0 queue).0 clear
        (All-swap (λ j. (j ≢ shard_id) × (j < rounds)) Avoids
          (send_to_shards m shard_id addrs states rounds 0 queue).0
          (λ j (other, high).
            left-Avoids rounds 0 j queue (omega arith) (omega (arith, high)) other))
    where
      clear :
          (tx : Transaction)
          → ((j : ℕ) → (j ≢ shard_id) × (j < rounds) → Avoids j tx)
          → contains addrs (decisive tx) ≡ false
      clear tx h = elim (Bool-cases (contains addrs (decisive tx))) [
        | inr e ↦ e
        | inl e ↦
            let j = GoMap.get_or (decisive tx) 0 m in
            let found = select-all m j addrs states (decisive tx) l e refl in
            absurd (ground (arith, found, h j (moves (decisive tx) e)))
      ]

-- A main node takes the transactions of a message that is for its shard.
pub check_txs-IsFor :
    (maps : List (GoMap Bytes ℕ)) (round i : ℕ) (m : GoMap Bytes ℕ) (txs : List Transaction)
    → get_elem? maps round ≡ some m
    → All (λ tx. GoMap.get_or (decisive tx) 0 m ≡ i) txs
    → check_txs maps round i txs ≡ ok tt
unfolding check_txs
check_txs-IsFor maps round i m [] e h = refl
check_txs-IsFor maps round i m (tx ∷ txs) e (a, h) =
    rw (e, (eq_iff (GoMap.get_or (decisive tx) 0 m) i).1 a) (check_txs-IsFor maps round i m txs e h)
