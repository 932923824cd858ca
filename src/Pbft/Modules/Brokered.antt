-- ===== src/Pbft/Modules/Brokered.antt =====
-- consensus_shard/pbft_all/pbftInside_moduleBroker.go: what the main node sends of a block.
use utxo_block_emulator.Base.{
  ℕ, zero, suc, ◌≡◌, refl, ap, ◌∙◌, List, [], ◌∷◌, ◌++◌, map, Bool, true, false, not, ◌&&◌, Option,
  Bytes, bytes_eq, nat_eq, ◌==◌, keep, append-nil, append_assoc, Bool-cases, inl, inr,
}
use utxo_block_emulator.Core.Block.{Block}
use utxo_block_emulator.Core.Transaction.{Transaction}
use utxo_block_emulator.Message.{Request}
use utxo_block_emulator.Chain.Blockchain.{Env, BlockChain}
use utxo_block_emulator.Pbft.{Node}
use utxo_block_emulator.Pbft.Modules.{RelayOut, seq_id_to, block_info}
use utxo_block_emulator.Pbft.Modules.Sends.{shards_from}
use utxo_block_emulator.Pbft.Modules.RawBroker.{
  BrokerSorted, is_broker1_tx, is_broker2_tx, sort_broker_tx, sort_broker_txs, send_seq_ids,
  broker_block, broker_info_of,
}

-- The first half of a transfer through a broker, and a transaction that is done.
abbrev pub is_first_half : Transaction → Bool
is_first_half tx = is_broker1_tx tx && not (is_broker2_tx tx)

abbrev pub is_done : Transaction → Bool
is_done tx = not (is_broker1_tx tx) && not (is_broker2_tx tx)

abbrev pub sorted_of : List Transaction → BrokerSorted → BrokerSorted
sorted_of txs s = record {
  tx_excuted = s.tx_excuted ++ keep is_done txs;
  broker1_txs = s.broker1_txs ++ keep is_first_half txs;
  broker2_txs = s.broker2_txs ++ keep is_broker2_tx txs;
}

sort_broker_txs_lem :
    (txs : List Transaction) (s : BrokerSorted) → sort_broker_txs txs s ≡ sorted_of txs s
unfolding sort_broker_txs sort_broker_tx
sort_broker_txs_lem [] s =
    rw (append-nil s.tx_excuted, append-nil s.broker1_txs, append-nil s.broker2_txs) refl
sort_broker_txs_lem (tx ∷ txs) s =
    sort_broker_txs_lem txs (sort_broker_tx tx s)
    ∙ one (is_broker1_tx tx) (is_broker2_tx tx) refl refl
  where
    one :
        (b c : Bool)
        → is_broker1_tx tx ≡ b
        → is_broker2_tx tx ≡ c
        → sorted_of txs (sort_broker_tx tx s) ≡ sorted_of (tx ∷ txs) s
    one true true h k =
        rw (h, k, keep, append_assoc s.broker2_txs (tx ∷ []) (keep is_broker2_tx txs)) refl
    one true false h k =
        rw (h, k, keep, append_assoc s.broker1_txs (tx ∷ []) (keep is_first_half txs)) refl
    one false true h k =
        rw (h, k, keep, append_assoc s.broker2_txs (tx ∷ []) (keep is_broker2_tx txs)) refl
    one false false h k =
        rw (h, k, keep, append_assoc s.tx_excuted (tx ∷ []) (keep is_done txs)) refl

abbrev pub seq_id_of : (own seq sid : ℕ) → RelayOut
seq_id_of own seq sid = seq_id_to sid (record { sender_shard_id = own; sender_seq = seq })

abbrev pub is_other : (own sid : ℕ) → Bool
is_other own sid = not (sid == own)

send_seq_ids_lem :
    (own seq rounds sid : ℕ)
    → send_seq_ids own seq rounds sid
      ≡ map (seq_id_of own seq) (keep (is_other own) (shards_from rounds sid))
unfolding send_seq_ids
send_seq_ids_lem own seq zero sid = refl
send_seq_ids_lem own seq (suc rounds) sid = elim (Bool-cases (sid == own)) [
  | inl e ↦ rw (e, keep, send_seq_ids) (send_seq_ids_lem own seq rounds (suc sid))
  | inr e ↦
      rw (e, keep, send_seq_ids)
        (ap (◌∷◌ (seq_id_of own seq sid)) (send_seq_ids_lem own seq rounds (suc sid)))
]

module _ (E : Env) (encode : Block → Bytes) (decode : Bytes → Option Block)
    (now : Node (BlockChain E) → ℕ) where
  -- The main node of a shard with the broker module tells every other shard its sequence id, once and in
  -- order, and then reports the block to the supervisor: its second halves of transfers through a
  -- broker, its first halves, and all others as executed, each transaction in one of the three lists and
  -- each list in the order of the block.
  pub broker_block-sends :
      (r : Request) (block : Block) (n : Node (BlockChain E))
      → broker_block E encode decode now r block n
        ≡ map
            (seq_id_of n.shard_id n.sequence_id)
            (keep (is_other n.shard_id) (shards_from n.cur_chain.config.shard_nums 0))
          ++ (block_info (
                broker_info_of E encode decode now 0 r block
                  (record {
                    tx_excuted = keep is_done block.body;
                    broker1_txs = keep is_first_half block.body;
                    broker2_txs = keep is_broker2_tx block.body;
                  })
                  n)
              ∷ [])
  unfolding broker_block
  broker_block-sends r block n =
      ap
        (λ l.
          l
          ++ (block_info (
                broker_info_of E encode decode now 0 r block
                  (sort_broker_txs block.body
                    (record { tx_excuted = []; broker1_txs = []; broker2_txs = [] }))
                  n)
              ∷ []))
        (send_seq_ids_lem n.shard_id n.sequence_id n.cur_chain.config.shard_nums 0)
      ∙ ap
          (λ s.
            map (seq_id_of n.shard_id n.sequence_id)
              (keep (is_other n.shard_id) (shards_from n.cur_chain.config.shard_nums 0))
            ++ (block_info (broker_info_of E encode decode now 0 r block s n) ∷ []))
          (sort_broker_txs_lem block.body
            (record { tx_excuted = []; broker1_txs = []; broker2_txs = [] }))
