-- ===== src/Core/TxPool/Order.antt =====
-- core/txpool.go as a first-in first-out queue: `PackTxs`, `AddTx2Pool`, `AddTxs2Pool`.
use utxo_block_emulator.Base.{
  ℕ, suc, ◌≤◌, ◌≡◌, refl, sym, ap, ◌∙◌, List, [], ◌∷◌, ◌++◌, length, min, ltb, length-take,
  take-append-drop, append-nil, append_assoc, arith, nat_eq, Bool-cases, true, inl, inr,
}
use utxo_block_emulator.Core.Transaction.{Timed}
use utxo_block_emulator.Core.TxPool.{
  TxPool, stamp, add_tx_to_pool, add_txs_loop, add_txs_to_pool, pack_txs,
}

module _ {T : Type 0} where
  -- A pack takes the longest prefix of the queue that has at most `max_txs` transactions, leaves the
  -- rest in order, and does not touch the relay pool.
  pack_txs-split :
      (max_txs : ℕ) (p : TxPool T)
      → let (packed, p') = pack_txs max_txs p in
        (packed ++ p'.tx_queue ≡ p.tx_queue)
        × (length packed ≡ min max_txs (length p.tx_queue))
        × (p'.relay_pool ≡ p.relay_pool)
  unfolding pack_txs
  pack_txs-split max_txs p = elim (Bool-cases (ltb (length p.tx_queue) max_txs)) [
    | inl e ↦ rw e (
      take-append-drop (length p.tx_queue) p.tx_queue,
      omega (arith, length-take (length p.tx_queue) p.tx_queue, small e),
      refl,
    )
    | inr e ↦ rw e (take-append-drop max_txs p.tx_queue, length-take max_txs p.tx_queue, refl)
  ]
    where
      small : ltb (length p.tx_queue) max_txs ≡ true → length p.tx_queue ≤ max_txs
      small h = ground arith

-- The calls that feed and drain the queue, each made whole under the pool's mutex.
pub data Call (T : Type 0) : Type 0 where
  add : ℕ → T → Call T
  adds : (ℕ → ℕ) → List T → Call T
  pack : ℕ → Call T

module _ {T : Type 0} ⦃timed : Timed T⦄ where
  -- What a batch becomes once each transaction without a time has the reading of its own round.
  abbrev pub stamped : (ℕ → ℕ) → ℕ → List T → List T
  stamped clock i [] = []
  stamped clock i (tx ∷ txs) = stamp (clock i) tx ∷ stamped clock (suc i) txs

  pub add_txs_loop-eq :
      (clock : ℕ → ℕ) (i : ℕ) (txs : List T) (p : TxPool T)
      → add_txs_loop clock i txs p ≡ record p { tx_queue = p.tx_queue ++ stamped clock i txs }
  unfolding add_txs_loop
  add_txs_loop-eq clock i [] p = rw append-nil
  add_txs_loop-eq clock i (tx ∷ txs) p =
      add_txs_loop-eq clock (suc i) txs _
      ∙ ap (λ q. record p { tx_queue = q })
          (append_assoc p.tx_queue (stamp (clock i) tx ∷ []) (stamped clock (suc i) txs))

  -- The transactions packed so far, and the pool.
  pub step : Call T → List T × TxPool T → List T × TxPool T
  step (add now tx) (out, p) = (out, add_tx_to_pool now tx p)
  step (adds clock txs) (out, p) = (out, add_txs_to_pool clock txs p)
  step (pack n) (out, p) = let (packed, p') = pack_txs n p in (out ++ packed, p')

  pub run : List (Call T) → List T × TxPool T → List T × TxPool T
  run [] s = s
  run (c ∷ cs) s = run cs (step c s)

  abbrev pub arrival : Call T → List T
  arrival (add now tx) = stamp now tx ∷ []
  arrival (adds clock txs) = stamped clock 0 txs
  arrival (pack n) = []

  abbrev pub arrivals : List (Call T) → List T
  arrivals [] = []
  arrivals (c ∷ cs) = arrival c ++ arrivals cs

  step-fifo :
      (c : Call T) (s : List T × TxPool T)
      → (step c s).0 ++ (step c s).1.tx_queue ≡ (s.0 ++ s.1.tx_queue) ++ arrival c
  unfolding step add_tx_to_pool add_txs_to_pool
  step-fifo (add now tx) s = sym (append_assoc s.0 s.1.tx_queue (stamp now tx ∷ []))
  step-fifo (adds clock txs) s =
      rw (add_txs_loop-eq clock 0 txs s.1)
        (sym (append_assoc s.0 s.1.tx_queue (stamped clock 0 txs)))
  step-fifo (pack n) s =
      append_assoc s.0 (pack_txs n s.1).0 (pack_txs n s.1).1.tx_queue
      ∙ ap (◌++◌ s.0) (pack_txs-split n s.1).0
      ∙ sym (append-nil (s.0 ++ s.1.tx_queue))

  run-fifo :
      (cs : List (Call T)) (s : List T × TxPool T)
      → (run cs s).0 ++ (run cs s).1.tx_queue ≡ (s.0 ++ s.1.tx_queue) ++ arrivals cs
  unfolding run
  run-fifo [] s = sym (append-nil (s.0 ++ s.1.tx_queue))
  run-fifo (c ∷ cs) s =
      run-fifo cs (step c s)
      ∙ ap (λ l. l ++ arrivals cs) (step-fifo c s)
      ∙ append_assoc (s.0 ++ s.1.tx_queue) (arrival c) (arrivals cs)

  -- Whatever adds and packs are made, in any order: the transactions packed, followed by the queue,
  -- are the initial queue followed by the arrivals, so none is lost, repeated or overtaken.
  pub run_is_fifo :
      (cs : List (Call T)) (p : TxPool T)
      → (run cs ([], p)).0 ++ (run cs ([], p)).1.tx_queue ≡ p.tx_queue ++ arrivals cs
  run_is_fifo cs p = run-fifo cs ([], p)
