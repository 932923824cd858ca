-- ===== src/Examples/Pools.antt =====
-- Runs of the pools, the message prefix and the default shard, and each of their theorems at an input.
use utxo_block_emulator.Base.{
  ◌≡◌, ◌≢◌, ◌↔◌, ◌≤◌, ◌+◌, refl, List, [], ◌∷◌, ◌++◌, true, some, Bytes, bytes_eq, nat_eq, length,
  All,
}
use utxo_block_emulator.Base.Text.{codes}
use utxo_block_emulator.Base.Int.{pos}
use utxo_block_emulator.Base.GoMap.{lookup}
use utxo_block_emulator.Base.Outcome.{ok, ◌>>=◌}
use utxo_block_emulator.Core.Transaction.{Transaction, unhashed, transaction_timed}
use utxo_block_emulator.Core.TxPool.{TxPool, pack_relay_txs, pack_relay_from}
use utxo_block_emulator.Core.TxPool.Order.{Call, add, adds, pack, run, arrivals, run_is_fifo}
use utxo_block_emulator.Message.Prefix.{merge_message, split_message, split-merge_iff}

abbrev alice : Bytes
alice = codes "00000000000000000000000000000000000000a1"

abbrev bob : Bytes
bob = codes "00000000000000000000000000000000000000B2"

abbrev payment : Transaction
payment = unhashed alice bob (pos 5) 0

abbrev refund : Transaction
refund = unhashed bob alice (pos 2) 1

abbrev pool : TxPool Transaction
pool = record {
  tx_queue = payment ∷ refund ∷ payment ∷ [];
  relay_pool = some ((1, payment ∷ refund ∷ []) ∷ (2, refund ∷ []) ∷ []);
}

pack_relay_txs_runs : (pack_relay_txs 1 1 1 pool).0 ≡ (payment ∷ [], true)
unfolding pack_relay_txs pack_relay_from lookup
pack_relay_txs_runs = refl

abbrev calls : List (Call Transaction)
calls = add 7 refund ∷ pack 2 ∷ adds (λ i. i + 10) (payment ∷ refund ∷ []) ∷ pack 3 ∷ []

run_is_fifo_example :
    (run calls ([], pool)).0 ++ (run calls ([], pool)).1.tx_queue ≡ pool.tx_queue ++ arrivals calls
run_is_fifo_example = run_is_fifo calls pool

split-merge_iff_example :
    ((merge_message (codes "relay") (codes "{}") >>= split_message)
      ≡ ok ((codes "relay"), (codes "{}")))
    ↔ ((length (codes "relay") ≤ 30) × All (λ x. x ≢ 0) (codes "relay"))
split-merge_iff_example = split-merge_iff (codes "relay") (codes "{}")
