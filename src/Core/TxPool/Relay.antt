-- ===== src/Core/TxPool/Relay.antt =====
-- core/txpool.go: the relay pool.
use utxo_block_emulator.Base.{
  ℕ, ◌≤◌, ◌^◌, ◌≡◌, ◌≢◌, refl, List, [], ◌∷◌, ◌++◌, true, none, some, length, drop, arith, nat_eq,
  eq_iff, ◌==◌, ◌&&◌, if◌then◌else◌, ltb, take-append-drop, Bool-cases, Option-cases, inl, inr, min,
  length-take,
}
use utxo_block_emulator.Base.GoMap.{GoMap, lookup, get_or, insert, lookup-insert}
use utxo_block_emulator.Base.Outcome.{ok, panic}
use utxo_block_emulator.Core.TxPool.{
  TxPool, relay_map, add_relay_map, add_relay_tx, clear_relay_pool, pack_relay_txs, pack_relay_from,
}

module _ {T : Type 0} where
  -- The transactions that wait for a shard.
  abbrev pub waiting : ℕ → GoMap ℕ (List T) → List T
  waiting shard m = get_or shard [] m

  pub waiting-add_relay_map :
      (tx : T) (shard s : ℕ) (m : GoMap ℕ (List T))
      → waiting s (add_relay_map tx shard m)
        ≡ (if shard == s then waiting shard m ++ (tx ∷ []) else waiting s m)
  unfolding add_relay_map get_or
  waiting-add_relay_map tx shard s m = elim (Option-cases (lookup shard m)) [
    | inl e ↦ ground (
      arith,
      lookup-insert shard s ([] ++ (tx ∷ [])) (insert shard [] m),
      lookup-insert shard s [] m,
      lookup-insert shard shard [] m,
      eq_iff shard s,
      eq_iff shard shard,
      e,
    )
    | inr (txs, e) ↦ ground (arith, lookup-insert shard s (txs ++ (tx ∷ [])) m, eq_iff shard s, e)
  ]

  -- `AddRelayTx` appends to the named shard's list, also for a shard that had none, and leaves every
  -- other list and the queue alone.
  add_relay_tx_lem :
      (tx : T) (shard s : ℕ) (p : TxPool T) (m : GoMap ℕ (List T))
      → p.relay_pool ≡ some m
      → (p' : TxPool T) × (add_relay_tx tx shard p ≡ ok p')
        × (p'.tx_queue ≡ p.tx_queue)
        × (waiting s (relay_map p')
            ≡ (if shard == s then waiting shard m ++ (tx ∷ []) else waiting s m))
  unfolding add_relay_tx
  add_relay_tx_lem tx shard s p m e = (
    record p { relay_pool = some (add_relay_map tx shard m) },
    rw (e, add_relay_tx) refl,
    refl,
    waiting-add_relay_map tx shard s m,
  )

  -- Once `ClearRelayPool` has set the map to nil, `AddRelayTx` panics until a new map is stored.
  add_relay_tx-clear :
      (tx : T) (shard : ℕ) (p : TxPool T) → add_relay_tx tx shard (clear_relay_pool p) ≡ panic
  unfolding add_relay_tx clear_relay_pool
  add_relay_tx-clear tx shard p = refl

  pub waiting-insert :
      (shard s : ℕ) (txs : List T) (m : GoMap ℕ (List T))
      → waiting s (insert shard txs m) ≡ (if shard == s then txs else waiting s m)
  unfolding get_or
  waiting-insert shard s txs m = ground (arith, lookup-insert shard s txs m, eq_iff shard s)

  pack_relay_from-splits :
      (shard min_size max_size : ℕ) (m : GoMap ℕ (List T)) (txs : List T) (p : TxPool T)
      → (pack_relay_from shard min_size max_size m txs p).0.1 ≡ true
      → let ((packed, done), p') = pack_relay_from shard min_size max_size m txs p in
        (packed ++ waiting shard (relay_map p') ≡ txs)
        × (length packed ≡ min max_size (length txs))
        × ((s : ℕ) → shard ≢ s → waiting s (relay_map p') ≡ waiting s m)
        × (p'.tx_queue ≡ p.tx_queue)
  unfolding pack_relay_from
  pack_relay_from-splits shard min_size max_size m txs p h =
      elim (Bool-cases (ltb min_size (2 ^ 63) && ltb (length txs) min_size)) [
        | inl e ↦ absurd (falls e)
        | inr e ↦ elim (Bool-cases (ltb (length txs) max_size)) [
          | inl f ↦
              rw (e, f)
                (
                  rw
                      (
                        waiting-insert shard shard (drop (length txs) txs) m,
                        (eq_iff shard shard).1 refl,
                      )
                      (take-append-drop (length txs) txs),
                  omega (arith, length-take (length txs) txs, small f),
                  others (length txs),
                  refl,
                )
          | inr f ↦
              rw (e, f)
                (
                  rw (waiting-insert shard shard (drop max_size txs) m, (eq_iff shard shard).1 refl)
                      (take-append-drop max_size txs),
                  length-take max_size txs,
                  others max_size,
                  refl,
                )
        ]
      ]
    where
      falls : (ltb min_size (2 ^ 63) && ltb (length txs) min_size) ≡ true → ⊥
      falls e = cc (rw (e, pack_relay_from) at h)

      small : ltb (length txs) max_size ≡ true → length txs ≤ max_size
      small f = ground arith

      others : (n s : ℕ) → shard ≢ s → waiting s (insert shard (drop n txs) m) ≡ waiting s m
      others n s ne = ground (arith, waiting-insert shard s (drop n txs) m, eq_iff shard s)

  -- A relay pack that succeeds takes the longest prefix of the shard's list that has at most
  -- `max_size` transactions, and leaves the rest, the other shards' lists and the queue.
  pack_relay_txs-splits :
      (shard min_size max_size : ℕ) (p : TxPool T)
      → (pack_relay_txs shard min_size max_size p).0.1 ≡ true
      → let ((packed, done), p') = pack_relay_txs shard min_size max_size p in
        (packed ++ waiting shard (relay_map p') ≡ waiting shard (relay_map p))
        × (length packed ≡ min max_size (length (waiting shard (relay_map p))))
        × ((s : ℕ) → shard ≢ s → waiting s (relay_map p') ≡ waiting s (relay_map p))
        × (p'.tx_queue ≡ p.tx_queue)
  unfolding pack_relay_txs get_or
  pack_relay_txs-splits shard min_size max_size p h =
      elim (Option-cases (lookup shard (relay_map p))) [
        | inl e ↦ absurd (missing e)
        | inr (txs, e) ↦
            rw (e, pack_relay_txs, get_or)
              (pack_relay_from-splits shard min_size max_size (relay_map p) txs p
                (rw (e, pack_relay_txs) at h))
      ]
    where
      missing : lookup shard (relay_map p) ≡ none → ⊥
      missing e = cc (rw (e, pack_relay_txs) at h)
