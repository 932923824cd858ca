-- ===== src/Pbft/Modules/Sorts.antt =====
-- consensus_shard/pbft_all/pbftInside_module.go: how the loop over a block sorts its transactions.
use utxo_block_emulator.Base.{
  ℕ, List, [], ◌∷◌, ◌++◌, map, true, false, not, some, ◌≡◌, ◌≢◌, refl, sym, ap, ◌∙◌, Bytes, nat_eq,
  ◌==◌, if◌then◌else◌, Bool-cases, inl, inr, keep, keep-hit, keep-miss, All, append-nil,
  append_assoc, eq_iff, arith,
}
use utxo_block_emulator.Base.GoMap.{GoMap}
use utxo_block_emulator.Base.Outcome.{Outcome, ok, ◌>>=◌}
use utxo_block_emulator.Core.Transaction.{Transaction}
use utxo_block_emulator.Core.TxPool
use utxo_block_emulator.Core.TxPool.{TxPool}
use utxo_block_emulator.Core.TxPool.Relay.{waiting, waiting-add_relay_map}
use utxo_block_emulator.Pbft.Modules.RawRelay.{Sorted, relayed_tx, relay_tx, sort_tx, sort_txs}

-- The transactions whose recipient lives on a shard, in the order of the block.
abbrev pub bound_for : (Bytes → ℕ) → ℕ → List Transaction → List Transaction
bound_for shard_of sid txs = keep (λ tx. shard_of tx.recipient == sid) txs

abbrev pub leaving : (Bytes → ℕ) → ℕ → List Transaction → List Transaction
leaving shard_of own txs = keep (λ tx. not (shard_of tx.recipient == own)) txs

module _ (partition : Bytes → Outcome ℕ) (shard_of : Bytes → ℕ) (own : ℕ) where
  unfoldable pub sorted :
      List Transaction → GoMap ℕ (List Transaction) → List Transaction → List Transaction → Sorted
  sorted q m r e = record {
    pool = record { tx_queue = q; relay_pool = some m };
    relay1_txs = r;
    tx_excuted = e;
  }

  sort_tx-stays :
      (tx : Transaction) (q : List Transaction) (m : GoMap ℕ (List Transaction))
      (r e : List Transaction)
      → partition tx.recipient ≡ ok (shard_of tx.recipient)
      → (shard_of tx.recipient == own) ≡ true
      → sort_tx partition own tx (sorted q m r e) ≡ ok (sorted q m r (e ++ (tx ∷ [])))
  unfolding sort_tx sorted
  sort_tx-stays tx q m r e placed here = rw (placed, here) refl

  sort_tx-leaves :
      (tx : Transaction) (q : List Transaction) (m : GoMap ℕ (List Transaction))
      (r e : List Transaction)
      → partition tx.recipient ≡ ok (shard_of tx.recipient)
      → (shard_of tx.recipient == own) ≡ false
      → sort_tx partition own tx (sorted q m r e)
        ≡ ok (
            sorted q
              (TxPool.add_relay_map (relayed_tx tx) (shard_of tx.recipient) m)
              (r ++ (relayed_tx tx ∷ []))
              e)
  unfolding sort_tx relay_tx sorted TxPool.add_relay_tx
  sort_tx-leaves tx q m r e placed here = rw (placed, here) refl

  elsewhere : (a sid : ℕ) → (a == own) ≡ true → own ≢ sid → (a == sid) ≡ false
  elsewhere a sid h ne = ground (arith, h, ne)

  unfoldable pub bound : ℕ → List Transaction → List Transaction
  bound sid txs = map relayed_tx (bound_for shard_of sid txs)

  -- One transaction that is relayed, and the list of any shard.
  waiting-relayed :
      (tx : Transaction) (txs : List Transaction) (m : GoMap ℕ (List Transaction)) (sid : ℕ)
      → waiting sid (TxPool.add_relay_map (relayed_tx tx) (shard_of tx.recipient) m)
          ++ bound sid txs
        ≡ waiting sid m ++ bound sid (tx ∷ txs)
  unfolding bound
  waiting-relayed tx txs m sid = elim (Bool-cases (shard_of tx.recipient == sid)) [
    | inl e ↦
        ap (λ l. l ++ bound sid txs)
          (waiting-add_relay_map (relayed_tx tx) (shard_of tx.recipient) sid m
            ∙ ap
                (λ b.
                  if b
                  then waiting (shard_of tx.recipient) m ++ (relayed_tx tx ∷ [])
                  else waiting sid m)
                e
            ∙ ap (λ k. waiting k m ++ (relayed_tx tx ∷ []))
                ((eq_iff (shard_of tx.recipient) sid).0 e))
        ∙ append_assoc (waiting sid m) (relayed_tx tx ∷ []) (bound sid txs)
        ∙ ap (λ l. waiting sid m ++ map relayed_tx l)
            (sym (keep-hit (λ t. shard_of t.recipient == sid) tx txs e))
    | inr e ↦
        ap (λ l. l ++ bound sid txs)
          (waiting-add_relay_map (relayed_tx tx) (shard_of tx.recipient) sid m
            ∙ ap
                (λ b.
                  if b
                  then waiting (shard_of tx.recipient) m ++ (relayed_tx tx ∷ [])
                  else waiting sid m)
                e)
        ∙ ap (λ l. waiting sid m ++ map relayed_tx l)
            (sym (keep-miss (λ t. shard_of t.recipient == sid) tx txs e))
  ]

  -- What the loop makes of the relay pool and of the two lists.
  pub sort_txs_lem :
      (txs q : List Transaction) (m : GoMap ℕ (List Transaction)) (r e : List Transaction)
      → All (λ tx. partition tx.recipient ≡ ok (shard_of tx.recipient)) txs
      → (m' : GoMap ℕ (List Transaction)) × (sort_txs partition own txs (sorted q m r e)
          ≡ ok (
              sorted q m'
                (r ++ map relayed_tx (leaving shard_of own txs))
                (e ++ bound_for shard_of own txs)))
        × ((sid : ℕ) → own ≢ sid → waiting sid m' ≡ waiting sid m ++ bound sid txs)
  unfolding sort_txs bound
  sort_txs_lem [] q m r e h =
      (m, rw (append-nil r, append-nil e) refl, λ sid ne. sym (append-nil (waiting sid m)))
  sort_txs_lem (tx ∷ txs) q m r e (placed, h) = elim (Bool-cases (shard_of tx.recipient == own)) [
    | inl here ↦
        let (m', made, waits) = sort_txs_lem txs q m r (e ++ (tx ∷ [])) h in
        (
          m',
          ap (λ o. o >>= sort_txs partition own txs) (sort_tx-stays tx q m r e placed here)
              ∙ made
              ∙ ap
                  (λ l. ok (
                    sorted q m' (r ++ map relayed_tx l)
                      ((e ++ (tx ∷ [])) ++ bound_for shard_of own txs)))
                  (sym (keep-miss (λ t. not (shard_of t.recipient == own)) tx txs (ap not here)))
              ∙ ap (λ l. ok (sorted q m' (r ++ map relayed_tx (leaving shard_of own (tx ∷ txs))) l))
                  (append_assoc e (tx ∷ []) (bound_for shard_of own txs)
                    ∙ ap (λ l. e ++ l)
                        (sym (keep-hit (λ t. shard_of t.recipient == own) tx txs here))),
          λ sid ne.
              waits sid ne
              ∙ ap (λ l. waiting sid m ++ map relayed_tx l)
                  (sym (
                    keep-miss (λ t. shard_of t.recipient == sid) tx txs
                      (elsewhere (shard_of tx.recipient) sid here ne))),
        )
    | inr here ↦
        let (m', made, waits) =
          sort_txs_lem txs q (TxPool.add_relay_map (relayed_tx tx) (shard_of tx.recipient) m)
            (r ++ (relayed_tx tx ∷ [])) e h in
        (
          m',
          ap (λ o. o >>= sort_txs partition own txs) (sort_tx-leaves tx q m r e placed here)
              ∙ made
              ∙ ap
                  (λ l. ok (
                    sorted q m'
                      ((r ++ (relayed_tx tx ∷ [])) ++ map relayed_tx (leaving shard_of own txs))
                      (e ++ l)))
                  (sym (keep-miss (λ t. shard_of t.recipient == own) tx txs here))
              ∙ ap (λ l. ok (sorted q m' l (e ++ bound_for shard_of own (tx ∷ txs))))
                  (append_assoc r (relayed_tx tx ∷ []) (map relayed_tx (leaving shard_of own txs))
                    ∙ ap (λ l. r ++ map relayed_tx l)
                        (sym (
                          keep-hit (λ t. not (shard_of t.recipient == own)) tx txs (ap not here)))),
          λ sid ne. waits sid ne ∙ waiting-relayed tx txs m sid,
        )
  ]
