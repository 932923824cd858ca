-- ===== src/Core/TxPool/Transfer.antt =====
-- core/txpool.go: `TransferTxs`, which takes an account's transactions out of the pool.
use utxo_block_emulator.Base.{
  ℕ, ◌≡◌, refl, sym, ap, ◌∙◌, List, [], ◌∷◌, ◌++◌, Bool, true, false, none, Bytes, arith, nat_eq,
  eq_iff, ◌==◌, if◌then◌else◌, keep, not, bytes_eq, append-nil, append_assoc, Bool-cases, inl, inr,
}
use utxo_block_emulator.Base.GoMap.{GoMap, lookup, get_or}
use utxo_block_emulator.Core.Transaction.{Transaction}
use utxo_block_emulator.Core.TxPool.{
  TxPool, relay_map, add_relay_map, transfer_queue, transfer_shard, transfer_relay, transfer_txs,
}
use utxo_block_emulator.Core.TxPool.Relay.{waiting, waiting-add_relay_map}

abbrev pub from : Bytes → Transaction → Bool
from addr tx = tx.sender == addr

abbrev pub not_from : Bytes → Transaction → Bool
not_from addr tx = not (tx.sender == addr)

transfer_queue-eq :
    (addr : Bytes) (txs moved kept : List Transaction)
    → transfer_queue addr txs (moved, kept)
      ≡ (moved ++ keep (from addr) txs, kept ++ keep (not_from addr) txs)
unfolding transfer_queue
transfer_queue-eq addr [] moved kept = rw (append-nil moved, append-nil kept)
transfer_queue-eq addr (tx ∷ txs) moved kept = elim (Bool-cases (tx.sender == addr)) [
  | inl e ↦
      rw (e, keep, transfer_queue)
        (transfer_queue-eq addr txs (moved ++ (tx ∷ [])) kept
          ∙ ap (λ l. (l, kept ++ keep (not_from addr) txs))
              (append_assoc moved (tx ∷ []) (keep (from addr) txs)))
  | inr e ↦
      rw (e, keep, transfer_queue)
        (transfer_queue-eq addr txs moved (kept ++ (tx ∷ []))
          ∙ ap (λ l. (moved ++ keep (from addr) txs, l))
              (append_assoc kept (tx ∷ []) (keep (not_from addr) txs)))
]

transfer_shard-moved :
    (addr : Bytes) (shard : ℕ) (txs moved : List Transaction) (m : GoMap ℕ (List Transaction))
    → (transfer_shard addr shard txs (moved, m)).0 ≡ moved ++ keep (from addr) txs
unfolding transfer_shard
transfer_shard-moved addr shard [] moved m = sym (append-nil moved)
transfer_shard-moved addr shard (tx ∷ txs) moved m = elim (Bool-cases (tx.sender == addr)) [
  | inl e ↦
      rw (e, keep, transfer_shard)
        (transfer_shard-moved addr shard txs (moved ++ (tx ∷ [])) m
          ∙ append_assoc moved (tx ∷ []) (keep (from addr) txs))
  | inr e ↦
      rw (e, keep, transfer_shard)
        (transfer_shard-moved addr shard txs moved (add_relay_map tx shard m))
]

transfer_shard-kept :
    (addr : Bytes) (shard s : ℕ) (txs moved : List Transaction) (m : GoMap ℕ (List Transaction))
    → waiting s (transfer_shard addr shard txs (moved, m)).1
      ≡ waiting s m ++ (if shard == s then keep (not_from addr) txs else [])
unfolding transfer_shard
transfer_shard-kept addr shard s [] moved m = ground (arith, append-nil (waiting s m))
transfer_shard-kept addr shard s (tx ∷ txs) moved m = elim (Bool-cases (tx.sender == addr)) [
  | inl e ↦
      rw (e, keep, transfer_shard) (transfer_shard-kept addr shard s txs (moved ++ (tx ∷ [])) m)
  | inr e ↦
      rw (e, keep, transfer_shard)
        (transfer_shard-kept addr shard s txs moved (add_relay_map tx shard m)
          ∙ ap (λ l. l ++ (if shard == s then keep (not_from addr) txs else []))
              (waiting-add_relay_map tx shard s m)
          ∙ joined (shard == s) ((eq_iff shard s).0))
]
  where
    joined :
        (b : Bool)
        → (b ≡ true → shard ≡ s)
        → (if b then waiting shard m ++ (tx ∷ []) else waiting s m)
            ++ (if b then keep (not_from addr) txs else [])
          ≡ waiting s m ++ (if b then tx ∷ keep (not_from addr) txs else [])
    joined true h = rw (h refl) (append_assoc (waiting s m) (tx ∷ []) (keep (not_from addr) txs))
    joined false h = refl

-- A Go map has one entry for a key.
abbrev pub Absent : ℕ → GoMap ℕ (List Transaction) → Type 0
Absent k m = lookup k m ≡ none

abbrev pub UniqueKeys : GoMap ℕ (List Transaction) → Type 0
UniqueKeys [] = Unit
UniqueKeys ((k, v) ∷ m) = Absent k m × UniqueKeys m

-- The senders' transactions in the order in which the map is visited.
abbrev pub all_from : Bytes → GoMap ℕ (List Transaction) → List Transaction
all_from addr [] = []
all_from addr ((k, txs) ∷ m) = keep (from addr) txs ++ all_from addr m

transfer_relay-moved :
    (addr : Bytes) (m : GoMap ℕ (List Transaction)) (moved : List Transaction)
    (pool : GoMap ℕ (List Transaction))
    → (transfer_relay addr m (moved, pool)).0 ≡ moved ++ all_from addr m
unfolding transfer_relay
transfer_relay-moved addr [] moved pool = sym (append-nil moved)
transfer_relay-moved addr ((k, txs) ∷ m) moved pool =
    transfer_relay-moved addr m _ _
    ∙ ap (λ l. l ++ all_from addr m) (transfer_shard-moved addr k txs moved pool)
    ∙ append_assoc moved (keep (from addr) txs) (all_from addr m)

-- The part of the old map that stays for a shard.
stays : Bytes → ℕ → GoMap ℕ (List Transaction) → List Transaction
stays addr s [] = []
stays addr s ((k, txs) ∷ m) = (if k == s then keep (not_from addr) txs else []) ++ stays addr s m

transfer_relay-stays :
    (addr : Bytes) (s : ℕ) (m : GoMap ℕ (List Transaction)) (moved : List Transaction)
    (pool : GoMap ℕ (List Transaction))
    → waiting s (transfer_relay addr m (moved, pool)).1 ≡ waiting s pool ++ stays addr s m
unfolding transfer_relay stays
transfer_relay-stays addr s [] moved pool = sym (append-nil (waiting s pool))
transfer_relay-stays addr s ((k, txs) ∷ m) moved pool =
    transfer_relay-stays addr s m _ _
    ∙ ap (λ l. l ++ stays addr s m) (transfer_shard-kept addr k s txs moved pool)
    ∙ append_assoc (waiting s pool) _ (stays addr s m)

stays-Absent :
    (addr : Bytes) (s : ℕ) (m : GoMap ℕ (List Transaction)) → Absent s m → stays addr s m ≡ []
unfolding stays lookup
stays-Absent addr s [] h = refl
stays-Absent addr s ((k, txs) ∷ m) h = ground (arith, stays-Absent addr s m)

stays-waiting :
    (addr : Bytes) (s : ℕ) (m : GoMap ℕ (List Transaction))
    → UniqueKeys m
    → stays addr s m ≡ keep (not_from addr) (waiting s m)
unfolding stays lookup get_or
stays-waiting addr s [] u = refl
stays-waiting addr s ((k, txs) ∷ m) u = elim (Bool-cases (k == s)) [
  | inl e ↦
      rw (e, get_or, lookup)
        (ap (◌++◌ (keep (not_from addr) txs)) (stays-Absent addr s m (subst_key ((eq_iff k s).0 e)))
          ∙ append-nil (keep (not_from addr) txs))
  | inr e ↦ rw (e, get_or, lookup) (stays-waiting addr s m u.1)
]
  where
    subst_key : k ≡ s → Absent s m
    subst_key e = rw e at u.0

-- `TransferTxs` takes exactly the address's transactions, from the queue and then from the relay
-- lists; what stays keeps its order, in the queue and for each shard.
transfer_txs_lem :
    (addr : Bytes) (p : TxPool Transaction)
    → UniqueKeys (relay_map p)
    → let (moved, p') = transfer_txs addr p in
      (moved ≡ keep (from addr) p.tx_queue ++ all_from addr (relay_map p))
      × (p'.tx_queue ≡ keep (not_from addr) p.tx_queue)
      × ((s : ℕ) → waiting s (relay_map p') ≡ keep (not_from addr) (waiting s (relay_map p)))
unfolding transfer_txs stays get_or
transfer_txs_lem addr p u = (
  transfer_relay-moved addr (relay_map p) _ []
      ∙ ap (λ l. l ++ all_from addr (relay_map p)) (ap (λ t. t.0) queue),
  ap (λ t. t.1) queue,
  λ s.
      transfer_relay-stays addr s (relay_map p) _ []
      ∙ empty s
      ∙ stays-waiting addr s (relay_map p) u,
)
  where
    queue :
        transfer_queue addr p.tx_queue ([], [])
        ≡ (keep (from addr) p.tx_queue, keep (not_from addr) p.tx_queue)
    queue = transfer_queue-eq addr p.tx_queue [] []

    empty : (s : ℕ) → waiting s [] ++ stays addr s (relay_map p) ≡ stays addr s (relay_map p)
    empty s = refl
