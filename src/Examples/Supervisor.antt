-- ===== src/Examples/Supervisor.antt =====
-- Runs of the supervisor's committees, and each of their theorems at an input.
use utxo_block_emulator.Base.{
  ℕ, ◌≡◌, ◌≢◌, ◌<◌, ◌++◌, refl, List, [], ◌∷◌, true, Bytes, bytes_eq, bytes_beq, nat_eq, ◌==◌,
  eq_iff, arith, keep, some, map, length,
}
use utxo_block_emulator.Base.Int.{pos}
use utxo_block_emulator.Base.GoMap
use utxo_block_emulator.Base.GoMap.{lookup}
use utxo_block_emulator.Base.Outcome.{Outcome, ok, Yields, ◌>>=◌}
use utxo_block_emulator.Base.Text.{codes}
use utxo_block_emulator.Core.Transaction.{Transaction, new_transaction}
use utxo_block_emulator.Utils.{addr_to_shard, parse_digits, hex_digit}
use utxo_block_emulator.Supervisor.{new_stop_signal, stop_gap_inc, stop_gap_reset, gap_enough}
use utxo_block_emulator.Supervisor.Sending.{tx_sending, relay_target}
use utxo_block_emulator.Supervisor.Batches.{sent_to, tx_sending-partitions}
use utxo_block_emulator.Supervisor.Brokers.{
  BrokerCommittee, BrokerRawMeg, deal_tx_by_broker, create_confirm, tx1_of, tx2_of,
}
use utxo_block_emulator.Supervisor.Halves.{Carries, broker_transfer_completes}
use utxo_block_emulator.Supervisor.Handling.{Handling, tx_handling}
use utxo_block_emulator.Examples.Chains.{alice, bob, carol, home, payment, cross}

abbrev txs : List Transaction
txs = payment ∷ cross ∷ record cross { sender = bob; recipient = alice } ∷ []

tx_sending-partitions_example :
    Yields
      (λ outs. (sid : ℕ) → sid < 4 → sent_to sid outs ≡ keep (λ tx. home tx.sender == sid) txs)
      (tx_sending (relay_target 4) 2 4 txs)
unfolding addr_to_shard parse_digits hex_digit
tx_sending-partitions_example =
    tx_sending-partitions (relay_target 4) (λ tx. home tx.sender) 2 4 (omega arith) txs
      (refl, (refl, (refl, tt)))

-- A committee with one broker, and hashes that are the sender and the recipient.
abbrev committee : BrokerCommittee
committee = record {
  broker_raw_megs = [];
  broker_address = alice ∷ [];
  raw_tx2broker_tx = [];
  broker_confirm1_pool = [];
  broker_confirm2_pool = [];
}

abbrev hash : Transaction → Bytes
hash tx = tx.sender ++ tx.recipient

abbrev digest : BrokerRawMeg → Bytes
digest meg = meg.tx.tx_hash

hashes_differ : carol ++ alice ≢ alice ++ bob
unfolding bytes_beq
hashes_differ e = ground (arith, (eq_iff (carol ++ alice) (alice ++ bob)).1 e)

broker_transfer_completes_example :
    (one two : Transaction) × (c₁ c₂ c₃ : BrokerCommittee) × (deal_tx_by_broker hash digest 4
        (cross ∷ [])
        committee
      ≡ ok ([], (c₁, one ∷ [])))
    × (create_confirm hash digest 4 (one ∷ []) c₁ ≡ ok (c₂, two ∷ []))
    × (create_confirm hash digest 4 (two ∷ []) c₂ ≡ ok (c₃, []))
    × Carries hash digest 4 cross alice one two
    × (GoMap.get_or cross.tx_hash [] c₃.raw_tx2broker_tx ≡ one.tx_hash ∷ two.tx_hash ∷ [])
unfolding addr_to_shard parse_digits hex_digit bytes_beq lookup GoMap.get_or tx1_of tx2_of
    new_transaction
broker_transfer_completes_example =
    broker_transfer_completes hash digest 4 cross committee alice [] 1 0 refl refl refl refl refl
      refl hashes_differ refl refl

-- Two empty reports in a row are enough for a threshold of two, not after a full one.
stops : gap_enough (stop_gap_inc (stop_gap_inc (stop_gap_reset (new_stop_signal 2)))) ≡ true
unfolding gap_enough stop_gap_inc stop_gap_reset new_stop_signal
stops = refl

abbrev row : List Bytes
row =
    []
    ∷ []
    ∷ []
    ∷ codes "0x00000000a0000004"
    ∷ codes "0x00000000b0000001"
    ∷ []
    ∷ codes "0"
    ∷ codes "0"
    ∷ codes "5"
    ∷ []

abbrev handled : Outcome Handling → Outcome (List ℕ × ℕ)
handled r = r >>= λ h. ok (map length h.batches, length h.tx_list)

-- Three rows and batches of two: the last transaction is in no batch when the file ends.
last_row_is_lost :
    handled (
      tx_handling hash
        (λ d. some (pos 5))
        2
        10
        9
        (row ∷ row ∷ row ∷ [])
        (record { now_data_num = 0; tx_list = []; batches = [] }))
    ≡ ok (2 ∷ [], 1)
unfolding tx_handling bytes_beq
last_row_is_lost = refl
