-- ===== src/Supervisor/Batches.antt =====
-- supervisor/committee, `txSending`: what each shard gets.
use utxo_block_emulator.Base.{
  ℕ, zero, suc, ◌+◌, ◌%◌, ◌≤◌, ◌<◌, ◌≡◌, refl, sym, ap, ◌∙◌, arith, List, [], ◌∷◌, ◌++◌, Bool,
  false, All, keep, append-nil, append_assoc, Bool-cases, inl, inr, if◌then◌else◌, nat_eq, ◌==◌,
  eq_iff,
}
use utxo_block_emulator.Base.GoMap
use utxo_block_emulator.Base.GoMap.{GoMap, lookup-insert}
use utxo_block_emulator.Base.Outcome.{
  Outcome, ok, panic, Yields, Yields-bind, Yields-after, Yields-if,
}
use utxo_block_emulator.Core.Transaction.{Transaction}
use utxo_block_emulator.Message.{InjectTxs}
use utxo_block_emulator.Supervisor.Sending.{flush, append_to, send_loop, tx_sending}

-- The transactions of the messages to a shard, in the order in which they are sent.
abbrev pub sent_to : ℕ → List InjectTxs → List Transaction
sent_to sid [] = []
sent_to sid (it ∷ its) =
    if it.to_shard_id == sid then it.txs ++ sent_to sid its else sent_to sid its

sent_to-append :
    (sid : ℕ) (xs ys : List InjectTxs) → sent_to sid (xs ++ ys) ≡ sent_to sid xs ++ sent_to sid ys
sent_to-append sid [] ys = refl
sent_to-append sid (it ∷ its) ys = elim (Bool-cases (it.to_shard_id == sid)) [
  | inl e ↦
      rw (e, sent_to)
        (ap (◌++◌ it.txs) (sent_to-append sid its ys)
          ∙ sym (append_assoc it.txs (sent_to sid its) (sent_to sid ys)))
  | inr e ↦ rw (e, sent_to) (sent_to-append sid its ys)
]

-- The shards before the first one that is flushed get nothing.
sent_to-flush_below :
    (rounds from sid : ℕ) (pending : GoMap ℕ (List Transaction))
    → sid < from
    → sent_to sid (flush rounds from pending) ≡ []
unfolding flush
sent_to-flush_below zero from sid pending h = refl
sent_to-flush_below (suc rounds) from sid pending h =
    let differ : (from == sid) ≡ false = ground (arith, h) in
    rw (differ, sent_to, flush) (sent_to-flush_below rounds (suc from) sid pending (omega arith))

sent_to-flush :
    (rounds from sid : ℕ) (pending : GoMap ℕ (List Transaction))
    → from ≤ sid
    → sid < from + rounds
    → sent_to sid (flush rounds from pending) ≡ GoMap.get_or sid [] pending
unfolding flush
sent_to-flush zero from sid pending low high = absurd (omega arith)
sent_to-flush (suc rounds) from sid pending low high = elim (Bool-cases (from == sid)) [
  | inl e ↦
      rw (e, sent_to, flush)
        (ap (◌++◌ (GoMap.get_or from [] pending))
            (sent_to-flush_below rounds (suc from) sid pending (ground (arith, e)))
          ∙ append-nil (GoMap.get_or from [] pending)
          ∙ ap (λ k. GoMap.get_or k [] pending) ((eq_iff from sid).0 e))
  | inr e ↦
      rw (e, sent_to, flush)
        (sent_to-flush rounds (suc from) sid pending (ground (arith, e)) (omega arith))
]

get_or-append_to :
    (sid s : ℕ) (tx : Transaction) (pending : GoMap ℕ (List Transaction))
    → GoMap.get_or s [] (append_to sid tx pending)
      ≡ (if sid == s then GoMap.get_or sid [] pending ++ (tx ∷ []) else GoMap.get_or s [] pending)
unfolding append_to GoMap.get_or
get_or-append_to sid s tx pending =
    ground (arith, lookup-insert sid s (GoMap.get_or sid [] pending ++ (tx ∷ [])) pending)

module _ (target : Transaction → Outcome ℕ) (shard_of : Transaction → ℕ) (speed shards : ℕ)
    (positive : 0 < speed) where
  abbrev is_for : ℕ → Transaction → Bool
  is_for sid tx = shard_of tx == sid

  -- Every shard gets what waits for it, and then its transactions of the list.
  abbrev Gets : GoMap ℕ (List Transaction) → List Transaction → List InjectTxs → Type 0
  Gets pending txs outs =
      (sid : ℕ)
      → sid < shards
      → sent_to sid outs ≡ GoMap.get_or sid [] pending ++ keep (is_for sid) txs

  appended :
      (sid : ℕ) (tx : Transaction) (txs : List Transaction) (pending : GoMap ℕ (List Transaction))
      → GoMap.get_or sid [] (append_to (shard_of tx) tx pending) ++ keep (is_for sid) txs
        ≡ GoMap.get_or sid [] pending ++ keep (is_for sid) (tx ∷ txs)
  appended sid tx txs pending = elim (Bool-cases (shard_of tx == sid)) [
    | inl e ↦
        let here : GoMap.get_or sid [] (append_to (shard_of tx) tx pending)
            ≡ GoMap.get_or sid [] pending ++ (tx ∷ []) =
          get_or-append_to (shard_of tx) sid tx pending
          ∙ rw e refl
          ∙ ap (λ k. GoMap.get_or k [] pending ++ (tx ∷ [])) ((eq_iff (shard_of tx) sid).0 e) in
        rw (here, e, keep)
          (append_assoc (GoMap.get_or sid [] pending) (tx ∷ []) (keep (is_for sid) txs))
    | inr e ↦
        let there : GoMap.get_or sid [] (append_to (shard_of tx) tx pending)
            ≡ GoMap.get_or sid [] pending =
          get_or-append_to (shard_of tx) sid tx pending ∙ rw e refl in
        rw (there, e, keep) refl
  ]

  get_or-nil : (sid : ℕ) → GoMap.get_or {V = List Transaction} sid [] [] ≡ []
  unfolding GoMap.get_or
  get_or-nil sid = refl

  send_loop-Gets :
      (idx : ℕ) (txs : List Transaction) (pending : GoMap ℕ (List Transaction))
      → All (λ tx. target tx ≡ ok (shard_of tx)) txs
      → (idx ≡ 0 → (sid : ℕ) → GoMap.get_or sid [] pending ≡ [])
      → Yields (Gets pending txs) (send_loop target speed shards idx txs pending)
  unfolding send_loop
  send_loop-Gets zero [] pending known none_yet = ([], refl, λ sid h. rw (none_yet refl sid) refl)
  send_loop-Gets (suc idx) [] pending known none_yet =
      Yields-if (speed == 0) panic (ok (flush shards 0 pending)) (λ e. absurd (ground (arith, e)))
        (λ _. (
          flush shards 0 pending,
          refl,
          λ sid h.
              sent_to-flush shards 0 sid pending (omega arith) (omega (arith, h))
              ∙ sym (append-nil (GoMap.get_or sid [] pending)),
        ))
  send_loop-Gets zero (tx ∷ txs) pending (known, rest) none_yet = Yields-after (target tx) _ known (
      let (outs, e, h) =
        send_loop-Gets 1 txs (append_to (shard_of tx) tx pending) rest
          (λ z. absurd (omega (arith, z))) in
      (outs, e, λ sid low. h sid low ∙ appended sid tx txs pending))
  send_loop-Gets (suc idx) (tx ∷ txs) pending (known, rest) none_yet =
      Yields-if (speed == 0) panic _ (λ e. absurd (ground (arith, e)))
        (λ _.
          Yields-if (suc idx % speed == 0) _ _
            (λ _. Yields-after (target tx) _ known (
              Yields-bind
                (send_loop target speed shards (suc (suc idx)) txs (append_to (shard_of tx) tx []))
                _
                (send_loop-Gets (suc (suc idx)) txs (append_to (shard_of tx) tx []) rest
                  (λ z. absurd (omega (arith, z))))
                (λ outs h. (
                  flush shards 0 pending ++ outs,
                  refl,
                  λ sid low.
                      sent_to-append sid (flush shards 0 pending) outs
                      ∙ ap (λ l. l ++ sent_to sid outs)
                          (sent_to-flush shards 0 sid pending (omega arith) (omega (arith, low)))
                      ∙ ap (◌++◌ (GoMap.get_or sid [] pending)) (
                          h sid low
                          ∙ appended sid tx txs []
                          ∙ ap (λ l. l ++ keep (is_for sid) (tx ∷ txs)) (get_or-nil sid)),
                ))))
            (λ _. Yields-after (target tx) _ known (
              let (outs, e, h) =
                send_loop-Gets (suc (suc idx)) txs (append_to (shard_of tx) tx pending) rest
                  (λ z. absurd (omega (arith, z))) in
              (outs, e, λ sid low. h sid low ∙ appended sid tx txs pending))))

  -- With a positive injection speed, and transactions whose shards are all known, `txSending` comes to
  -- an end, and each shard gets its transactions, each once and in their order, over all batches.
  pub tx_sending-partitions :
      (txs : List Transaction)
      → All (λ tx. target tx ≡ ok (shard_of tx)) txs
      → Yields
          (λ outs.
            (sid : ℕ) → sid < shards → sent_to sid outs ≡ keep (λ tx. shard_of tx == sid) txs)
          (tx_sending target speed shards txs)
  unfolding tx_sending
  tx_sending-partitions txs known =
      let (outs, e, h) = send_loop-Gets 0 txs [] known (λ _ sid. get_or-nil sid) in
      (outs, e, λ sid low. h sid low ∙ ap (λ l. l ++ keep (is_for sid) txs) (get_or-nil sid))
