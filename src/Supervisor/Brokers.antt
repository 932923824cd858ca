-- ===== src/Supervisor/Brokers.antt =====
-- supervisor/committee/committee_broker.go, with the messages of message/message_broker.go and the maps of
-- broker/broker.go. A handler returns the batches that it hands to `txSending`. `hash` is that of a transaction and
-- `digest` that of a raw message, whose other fields are zero. The handlers run under one lock.
use utxo_block_emulator.Base.{
  ℕ, List, [], ◌∷◌, ◌++◌, Bool, true, not, ◌&&◌, ◌||◌, none, some, Bytes, bytes_eq, nat_eq, ◌==◌,
  if◌then◌else◌,
}
use utxo_block_emulator.Base.GoMap
use utxo_block_emulator.Base.GoMap.{GoMap}
use utxo_block_emulator.Base.Outcome.{Outcome, ok, panic, ◌>>=◌}
use utxo_block_emulator.Core.Transaction.{Transaction, new_transaction}
use utxo_block_emulator.Utils.{addr_to_shard}
use utxo_block_emulator.Message.{BlockInfoMsg}
use utxo_block_emulator.Pbft.Clpa.Transfer.{contains}

pub record BrokerRawMeg : Type 0 where
  pub tx : Transaction
  pub broker : Bytes

pub record BrokerType1Meg : Type 0 where
  pub raw_meg : BrokerRawMeg
  pub broker : Bytes

pub record Mag1Confirm : Type 0 where
  pub tx1_hash : Bytes
  pub raw_meg : BrokerRawMeg

pub record BrokerType2Meg : Type 0 where
  pub raw_meg : BrokerRawMeg
  pub broker : Bytes

pub record Mag2Confirm : Type 0 where
  pub tx2_hash : Bytes
  pub raw_meg : BrokerRawMeg

pub record BrokerCommittee : Type 0 where
  pub broker_raw_megs : GoMap Bytes BrokerRawMeg
  pub broker_address : List Bytes
  pub raw_tx2broker_tx : GoMap Bytes (List Bytes)
  pub broker_confirm1_pool : GoMap Bytes Mag1Confirm
  pub broker_confirm2_pool : GoMap Bytes Mag2Confirm

-- The first broker; there is none where the file of brokers is empty.
abbrev pub first_broker : BrokerCommittee → Outcome Bytes
first_broker c = elim c.broker_address [ [] ↦ panic | b ∷ bs ↦ ok b ]

abbrev pub is_broker : BrokerCommittee → Bytes → Bool
is_broker c a = contains c.broker_address a

-- `b.RawTx2BrokerTx[raw] = append(b.RawTx2BrokerTx[raw], hash)`
unfoldable pub add_broker_tx : (raw tx_hash : Bytes) → BrokerCommittee → BrokerCommittee
add_broker_tx raw tx_hash c = record c {
  raw_tx2broker_tx =
      GoMap.insert raw (GoMap.get_or raw [] c.raw_tx2broker_tx ++ (tx_hash ∷ []))
        c.raw_tx2broker_tx;
}

module _ (hash : Transaction → Bytes) (digest : BrokerRawMeg → Bytes) (shards : ℕ) where
  -- One half of a transfer.
  abbrev pub half : Transaction → Transaction → Transaction
  half tx ctx = record tx {
    original_sender = ctx.sender;
    final_recipient = ctx.recipient;
    raw_tx_hash = ctx.tx_hash;
  }

  unfoldable pub tx1_of : BrokerType1Meg → Transaction
  tx1_of meg =
      let ctx = meg.raw_meg.tx in
      half (new_transaction hash ctx.sender meg.broker ctx.value ctx.nonce) ctx

  unfoldable pub tx2_of : BrokerType2Meg → Transaction
  tx2_of meg =
      let ctx = meg.raw_meg.tx in
      half (new_transaction hash meg.broker ctx.recipient ctx.value ctx.nonce) ctx

  unfoldable pub handle_broker_type1_mes :
      List BrokerType1Meg → BrokerCommittee → BrokerCommittee × List Transaction
  unfolding tx1_of
  handle_broker_type1_mes [] c = (c, [])
  handle_broker_type1_mes (meg ∷ megs) c =
      let tx1 = tx1_of meg in
      let (c', tx1s) = handle_broker_type1_mes megs (record c {
        broker_confirm1_pool =
            GoMap.insert tx1.tx_hash (record { tx1_hash = tx1.tx_hash; raw_meg = meg.raw_meg })
              c.broker_confirm1_pool;
      }) in
      (c', tx1 ∷ tx1s)

  unfoldable pub handle_broker_type2_mes :
      List BrokerType2Meg → BrokerCommittee → BrokerCommittee × List Transaction
  unfolding tx2_of
  handle_broker_type2_mes [] c = (c, [])
  handle_broker_type2_mes (mes ∷ rest) c =
      let tx2 = tx2_of mes in
      let (c', tx2s) = handle_broker_type2_mes rest (record c {
        broker_confirm2_pool =
            GoMap.insert tx2.tx_hash (record { tx2_hash = tx2.tx_hash; raw_meg = mes.raw_meg })
              c.broker_confirm2_pool;
      }) in
      (c', tx2 ∷ tx2s)

  unfoldable pub store_raw_megs :
      List BrokerRawMeg → BrokerCommittee → BrokerCommittee × List BrokerType1Meg
  store_raw_megs [] c = (c, [])
  store_raw_megs (meg ∷ megs) c =
      let (c', type1s) =
        store_raw_megs megs
          (record c { broker_raw_megs = GoMap.insert (digest meg) meg c.broker_raw_megs }) in
      (c', record { raw_meg = meg; broker = meg.broker } ∷ type1s)

  unfoldable pub handle_broker_raw_mag :
      List BrokerRawMeg → BrokerCommittee → BrokerCommittee × List Transaction
  unfolding store_raw_megs handle_broker_type1_mes
  handle_broker_raw_mag megs c =
      let (c', type1s) = store_raw_megs megs c in handle_broker_type1_mes type1s c'

  -- The transactions that shards execute as they are, and the raw messages of the others.
  unfoldable pub sort_by_broker :
      List Transaction → BrokerCommittee → Outcome (List Transaction × List BrokerRawMeg)
  sort_by_broker [] c = ok ([], [])
  sort_by_broker (tx ∷ txs) c = do
    rsid ← addr_to_shard shards tx.recipient
    ssid ← addr_to_shard shards tx.sender
    let crosses =
          not (rsid == ssid) && not (is_broker c tx.recipient) && not (is_broker c tx.sender) in
        if crosses
        then (do
          b ← first_broker c
          (itxs, megs) ← sort_by_broker txs c
          ok (itxs, record { tx = tx; broker = b } ∷ megs))
        else (do
          (itxs, megs) ← sort_by_broker txs c
          ok (
            (if is_broker c tx.recipient || is_broker c tx.sender
                  then record tx { has_broker = true; sender_is_broker = is_broker c tx.sender }
                  else tx)
                ∷ itxs,
            megs,
          ))

  -- The transactions to send as they are, and the first halves that were handed to `txSending`.
  unfoldable pub deal_tx_by_broker :
      List Transaction
      → BrokerCommittee
      → Outcome (List Transaction × (BrokerCommittee × List Transaction))
  unfolding sort_by_broker handle_broker_raw_mag
  deal_tx_by_broker txs c = do
    (itxs, megs) ← sort_by_broker txs c
    ok (itxs, handle_broker_raw_mag megs c)

  -- A confirmation whose raw message is not known is passed over.
  unfoldable pub confirm1s :
      List Mag1Confirm → BrokerCommittee → Outcome (BrokerCommittee × List BrokerType2Meg)
  unfolding add_broker_tx
  confirm1s [] c = ok (c, [])
  confirm1s (confirm ∷ rest) c = elim (GoMap.lookup (digest confirm.raw_meg) c.broker_raw_megs) [
    | none ↦ confirm1s rest c
    | some _ ↦ (do
      b ← first_broker c
      (c', type2s) ← confirm1s rest (add_broker_tx confirm.raw_meg.tx.tx_hash confirm.tx1_hash c)
      ok (c', record { raw_meg = confirm.raw_meg; broker = b } ∷ type2s))
  ]

  unfoldable pub handle_tx1_confirm_mag :
      List Mag1Confirm → BrokerCommittee → Outcome (BrokerCommittee × List Transaction)
  unfolding confirm1s handle_broker_type2_mes
  handle_tx1_confirm_mag confirms c = do
    (c', type2s) ← confirm1s confirms c
    ok (handle_broker_type2_mes type2s c')

  unfoldable pub handle_tx2_confirm_mag : List Mag2Confirm → BrokerCommittee → BrokerCommittee
  unfolding add_broker_tx
  handle_tx2_confirm_mag [] c = c
  handle_tx2_confirm_mag (confirm ∷ rest) c =
      handle_tx2_confirm_mag rest (add_broker_tx confirm.raw_meg.tx.tx_hash confirm.tx2_hash c)

  -- The confirmations that wait for the transactions.
  unfoldable pub confirms_of : {V : Type 0} → GoMap Bytes V → List Transaction → List V
  confirms_of pool [] = []
  confirms_of pool (tx ∷ txs) =
      let rest = confirms_of pool txs in
      elim (GoMap.lookup tx.tx_hash pool) [ none ↦ rest | some c ↦ c ∷ rest ]

  -- The second halves that were handed to `txSending`. (An empty list of confirmations changes nothing.)
  unfoldable pub create_confirm :
      List Transaction → BrokerCommittee → Outcome (BrokerCommittee × List Transaction)
  unfolding confirms_of handle_tx1_confirm_mag handle_tx2_confirm_mag
  create_confirm txs c = do
    let firsts = confirms_of c.broker_confirm1_pool txs in
        let seconds = confirms_of c.broker_confirm2_pool txs in
        (do
          (c', tx2s) ← handle_tx1_confirm_mag firsts c
          ok (handle_tx2_confirm_mag seconds c', tx2s))

  unfoldable pub adjust_by_block_infos :
      BlockInfoMsg → BrokerCommittee → Outcome (BrokerCommittee × List Transaction)
  unfolding create_confirm
  adjust_by_block_infos b c =
      if b.block_body_length == 0
      then ok (c, [])
      else create_confirm (b.broker1_txs ++ b.broker2_txs) c
