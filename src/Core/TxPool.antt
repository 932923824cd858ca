-- ===== src/Core/TxPool.antt =====
-- core/txpool.go, generic in the transaction: core/utxo_txpool.go is the same code at another type.
-- The mutex makes each operation atomic. A pool holds pointers, so a time that is set here is seen
-- by whoever shares the transaction; nothing reads it before the block that holds it.
pub mod Order
pub mod Relay
pub mod Transfer
use utxo_block_emulator.Base.{
  ℕ, suc, ◌^◌, ◌&&◌, List, [], ◌∷◌, ◌++◌, Bool, true, false, Option, none, some, length, take, drop,
  keep, not, ltb, ◌==◌, nat_eq, bytes_eq, Bytes, if◌then◌else◌,
}
use utxo_block_emulator.Base.GoMap.{GoMap, lookup, get_or, insert}
use utxo_block_emulator.Base.Outcome.{Outcome, ok, panic}
use utxo_block_emulator.Core.Transaction.{Timed, Transaction}

-- `relay_pool` is nil (`none`) after `ClearRelayPool`.
pub record TxPool (T : Type 0) : Type 0 where
  pub tx_queue : List T
  pub relay_pool : Option (GoMap ℕ (List T))

unfoldable pub new_tx_pool : {T : Type 0} → TxPool T
new_tx_pool = record { tx_queue = []; relay_pool = some [] }

-- `if tx.Time.IsZero() { tx.Time = time.Now() }`
unfoldable pub stamp : {T : Type 0} ⦃t : Timed T⦄ → ℕ → T → T
stamp ⦃t⦄ now tx = if t.time tx == 0 then t.with_time now tx else tx

module _ {T : Type 0} ⦃timed : Timed T⦄ where
  unfoldable pub add_tx_to_pool : ℕ → T → TxPool T → TxPool T
  unfolding stamp
  add_tx_to_pool now tx p = record p { tx_queue = p.tx_queue ++ (stamp now tx ∷ []) }

  -- `clock i` is the reading of the i-th `time.Now()`.
  unfoldable pub add_txs_loop : (clock : ℕ → ℕ) → ℕ → List T → TxPool T → TxPool T
  unfolding add_tx_to_pool
  add_txs_loop clock i [] p = p
  add_txs_loop clock i (tx ∷ txs) p =
      add_txs_loop clock (suc i) txs
        (record p { tx_queue = p.tx_queue ++ (stamp (clock i) tx ∷ []) })

  unfoldable pub add_txs_to_pool : (clock : ℕ → ℕ) → List T → TxPool T → TxPool T
  unfolding add_txs_loop
  add_txs_to_pool clock txs p = add_txs_loop clock 0 txs p

module _ {T : Type 0} where
  unfoldable pub add_txs_to_pool_head : List T → TxPool T → TxPool T
  add_txs_to_pool_head txs p = record p { tx_queue = txs ++ p.tx_queue }

  -- The transactions packed, and the pool without them.
  unfoldable pub pack_txs : ℕ → TxPool T → List T × TxPool T
  pack_txs max_txs p =
      let tx_num = if ltb (length p.tx_queue) max_txs then length p.tx_queue else max_txs in
      (take tx_num p.tx_queue, record p { tx_queue = drop tx_num p.tx_queue })

  -- A write to a nil map panics.
  unfoldable pub add_relay_map : T → ℕ → GoMap ℕ (List T) → GoMap ℕ (List T)
  add_relay_map tx shard m =
      let m' : GoMap ℕ (List T) = elim (lookup shard m) [ none ↦ insert shard [] m | some _ ↦ m ] in
      insert shard (get_or shard [] m' ++ (tx ∷ [])) m'

  unfoldable pub add_relay_tx : T → ℕ → TxPool T → Outcome (TxPool T)
  unfolding add_relay_map
  add_relay_tx tx shard p = elim p.relay_pool [
    | none ↦ panic
    | some m ↦ ok (record p { relay_pool = some (add_relay_map tx shard m) })
  ]

  unfoldable pub get_tx_queue_len : TxPool T → ℕ
  get_tx_queue_len p = length p.tx_queue

  unfoldable pub clear_relay_pool : TxPool T → TxPool T
  clear_relay_pool p = record p { relay_pool = none }

  -- A nil map reads as an empty one.
  abbrev pub relay_map : TxPool T → GoMap ℕ (List T)
  relay_map p = elim p.relay_pool [ none ↦ [] | some m ↦ m ]

  unfoldable pub pack_relay_from :
      ℕ → ℕ → ℕ → GoMap ℕ (List T) → List T → TxPool T → (List T × Bool) × TxPool T
  pack_relay_from shard min_size max_size m txs p =
      if ltb min_size (2 ^ 63) && ltb (length txs) min_size
      then (([], false), p)
      else (let tx_num = if ltb (length txs) max_size then length txs else max_size in
          (
            (take tx_num txs, true),
            record p { relay_pool = some (insert shard (drop tx_num txs) m) },
          ))

  -- `int(minRelaySize)` is negative from 2^63 on, and no length is below it. `(nil, false)`, or the transactions packed and true.
  unfoldable pub pack_relay_txs : ℕ → ℕ → ℕ → TxPool T → (List T × Bool) × TxPool T
  unfolding pack_relay_from
  pack_relay_txs shard min_size max_size p = elim (lookup shard (relay_map p)) [
    | none ↦ (([], false), p)
    | some txs ↦ pack_relay_from shard min_size max_size (relay_map p) txs p
  ]

-- The two loops of `TransferTxs`: what goes, and what stays.
unfoldable pub transfer_queue :
    Bytes
    → List Transaction
    → List Transaction × List Transaction
    → List Transaction × List Transaction
transfer_queue addr [] (moved, kept) = (moved, kept)
transfer_queue addr (tx ∷ txs) (moved, kept) =
    transfer_queue addr txs
      (if tx.sender == addr then (moved ++ (tx ∷ []), kept) else (moved, kept ++ (tx ∷ [])))

unfoldable pub transfer_shard :
    Bytes
    → ℕ
    → List Transaction
    → List Transaction × GoMap ℕ (List Transaction)
    → List Transaction × GoMap ℕ (List Transaction)
unfolding add_relay_map
transfer_shard addr shard [] (moved, pool) = (moved, pool)
transfer_shard addr shard (tx ∷ txs) (moved, pool) =
    transfer_shard addr shard txs (
      if tx.sender == addr
      then (moved ++ (tx ∷ []), pool)
      else (moved, add_relay_map tx shard pool))

unfoldable pub transfer_relay :
    Bytes
    → GoMap ℕ (List Transaction)
    → List Transaction × GoMap ℕ (List Transaction)
    → List Transaction × GoMap ℕ (List Transaction)
unfolding transfer_shard
transfer_relay addr [] acc = acc
transfer_relay addr ((shard, txs) ∷ m) acc =
    transfer_relay addr m (transfer_shard addr shard txs acc)

unfoldable pub transfer_txs : Bytes → TxPool Transaction → List Transaction × TxPool Transaction
unfolding transfer_queue transfer_relay
transfer_txs addr p =
    let (moved, kept) = transfer_queue addr p.tx_queue ([], []) in
    let (moved', pool) = transfer_relay addr (relay_map p) (moved, []) in
    (moved', record { tx_queue = kept; relay_pool = some pool })
