-- ===== src/Supervisor/Sending.antt =====
-- supervisor/committee: `txSending`, in committee_relay.go and committee_broker.go. What is sent is a list of
-- messages; a JSON error and the network are left out, and the sleeps.
use utxo_block_emulator.Base.{
  ℕ, zero, suc, ◌%◌, List, [], ◌∷◌, ◌++◌, Bytes, bytes_eq, nat_eq, ◌==◌, if◌then◌else◌,
}
use utxo_block_emulator.Base.GoMap
use utxo_block_emulator.Base.GoMap.{GoMap}
use utxo_block_emulator.Base.Outcome.{Outcome, ok, panic, ◌>>=◌}
use utxo_block_emulator.Core.Transaction.{Transaction}
use utxo_block_emulator.Utils.{addr_to_shard}
use utxo_block_emulator.Message.{InjectTxs}
use utxo_block_emulator.Pbft.Clpa.Transfer.{contains}

-- One message for each shard, from `sid`.
unfoldable pub flush : (rounds sid : ℕ) → GoMap ℕ (List Transaction) → List InjectTxs
flush zero sid pending = []
flush (suc rounds) sid pending =
    record { txs = GoMap.get_or sid [] pending; to_shard_id = sid } ∷ flush rounds (suc sid) pending

-- `sendToShard[sid] = append(sendToShard[sid], tx)`
unfoldable pub append_to : ℕ → Transaction → GoMap ℕ (List Transaction) → GoMap ℕ (List Transaction)
append_to sid tx pending = GoMap.insert sid (GoMap.get_or sid [] pending ++ (tx ∷ [])) pending

module _ (target : Transaction → Outcome ℕ) (speed shards : ℕ) where
  -- The loop from `idx`, with the transactions that are left. A remainder by 0 panics.
  unfoldable pub send_loop :
      (idx : ℕ) → List Transaction → GoMap ℕ (List Transaction) → Outcome (List InjectTxs)
  unfolding flush append_to
  send_loop zero [] pending = ok []
  send_loop (suc idx) [] pending = if speed == 0 then panic else ok (flush shards 0 pending)
  send_loop zero (tx ∷ txs) pending = do sid ← target tx; send_loop 1 txs (append_to sid tx pending)
  send_loop (suc idx) (tx ∷ txs) pending =
      if speed == 0
      then panic
      else if suc idx % speed == 0
      then (do
        sid ← target tx
        outs ← send_loop (suc (suc idx)) txs (append_to sid tx [])
        ok (flush shards 0 pending ++ outs))
      else (do sid ← target tx; send_loop (suc (suc idx)) txs (append_to sid tx pending))

  unfoldable pub tx_sending : List Transaction → Outcome (List InjectTxs)
  unfolding send_loop
  tx_sending txs = send_loop 0 txs []

-- The relay committee sends a transaction to its sender's shard, the broker committee to its
-- recipient's if the sender is a broker.
abbrev pub relay_target : (shards : ℕ) → Transaction → Outcome ℕ
relay_target shards tx = addr_to_shard shards tx.sender

abbrev pub broker_target : (shards : ℕ) → (brokers : List Bytes) → Transaction → Outcome ℕ
broker_target shards brokers tx =
    if contains brokers tx.sender
    then (do _ ← addr_to_shard shards tx.sender; addr_to_shard shards tx.recipient)
    else addr_to_shard shards tx.sender
