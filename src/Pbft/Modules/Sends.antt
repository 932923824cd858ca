-- ===== src/Pbft/Modules/Sends.antt =====
-- consensus_shard/pbft_all/pbftInside_module.go: which transactions of a block the main node relays.
use utxo_block_emulator.Base.{
  ℕ, zero, suc, List, [], ◌∷◌, ◌++◌, map, Bool, true, false, not, ◌||◌, ◌&&◌, Option, none, ◌≡◌,
  ◌≢◌, refl, sym, ap, ◌∙◌, Bytes, nat_eq, ◌==◌, if◌then◌else◌, Bool-cases, inl, inr, keep, keep-hit,
  keep-miss, All, arith, length,
}
use utxo_block_emulator.Base.GoMap
use utxo_block_emulator.Base.GoMap.{GoMap}
use utxo_block_emulator.Base.Outcome.{Outcome, ok, ◌>>=◌}
use utxo_block_emulator.Core.Block.{Block}
use utxo_block_emulator.Core.Transaction.{Transaction}
use utxo_block_emulator.Core.TxPool
use utxo_block_emulator.Core.TxPool.{TxPool}
use utxo_block_emulator.Core.TxPool.Relay.{waiting}
use utxo_block_emulator.Message.{Request, BlockInfoMsg}
use utxo_block_emulator.Chain.Blockchain.{Env, BlockChain, shard_of_addr}
use utxo_block_emulator.Pbft.{Node}
use utxo_block_emulator.Pbft.Modules.{RelayOut, relay_to, block_info}
use utxo_block_emulator.Pbft.Modules.RawRelay.{
  Sorted, relayed_tx, send_relays, relay_block, block_info_of,
}
use utxo_block_emulator.Pbft.Modules.Sorts.{bound_for, leaving, sorted, bound, sort_txs_lem}

-- `sid`, `sid + 1`, …
abbrev pub shards_from : (rounds sid : ℕ) → List ℕ
shards_from zero sid = []
shards_from (suc rounds) sid = sid ∷ shards_from rounds (suc sid)

abbrev pub is_empty : List Transaction → Bool
is_empty [] = true
is_empty (tx ∷ txs) = false

-- The shards that get a message: another shard that a recipient of the block lives in.
abbrev pub is_target : (Bytes → ℕ) → ℕ → List Transaction → ℕ → Bool
is_target shard_of own txs sid = not (sid == own) && not (is_empty (bound_for shard_of sid txs))

-- The message to a shard: its transactions, marked as relayed.
abbrev pub relay_of : (Bytes → ℕ) → (own seq : ℕ) → List Transaction → ℕ → RelayOut
relay_of shard_of own seq txs sid = relay_to sid (record {
  txs = map relayed_tx (bound_for shard_of sid txs);
  sender_shard_id = own;
  sender_seq = seq;
})

waiting-nil : (sid : ℕ) → waiting {T = Transaction} sid [] ≡ []
unfolding GoMap.get_or GoMap.lookup
waiting-nil sid = refl

module _ (shard_of : Bytes → ℕ) (own seq : ℕ) where
  empty-length : (txs : List Transaction) → (length (map relayed_tx txs) == 0) ≡ is_empty txs
  empty-length [] = refl
  empty-length (tx ∷ txs) = ground arith

  apart : (sid : ℕ) → (sid == own) ≡ false → own ≢ sid
  apart sid e h = ground (arith, h)

  -- The message, or none.
  sent_if : Bool → ℕ → List Transaction → List RelayOut → List RelayOut
  sent_if b sid w rest =
      if b
      then rest
      else relay_to sid (record { txs = w; sender_shard_id = own; sender_seq = seq }) ∷ rest

  send_relays_lem :
      (txs : List Transaction) (m : GoMap ℕ (List Transaction))
      → ((sid : ℕ) → own ≢ sid → waiting sid m ≡ map relayed_tx (bound_for shard_of sid txs))
      → (rounds sid : ℕ)
      → send_relays own seq m rounds sid
        ≡ map
            (relay_of shard_of own seq txs)
            (keep (is_target shard_of own txs) (shards_from rounds sid))
  unfolding send_relays sent_if
  send_relays_lem txs m h zero sid = refl
  send_relays_lem txs m h (suc rounds) sid =
      let rest = send_relays own seq m rounds (suc sid) in
      let w = waiting sid m in
      let later = send_relays_lem txs m h rounds (suc sid) in
      let skipped = λ (t : is_target shard_of own txs sid ≡ false).
        later
        ∙ ap (map (relay_of shard_of own seq txs))
            (sym (keep-miss (is_target shard_of own txs) sid (shards_from rounds (suc sid)) t)) in
      elim (Bool-cases (sid == own)) [
        | inl e ↦
            ap (λ b. sent_if (b || (length w == 0)) sid w rest) e ∙ skipped (rw (is_target, e) refl)
        | inr e ↦
            let same = h sid (apart sid e) in
            let size = ap (λ v. length v == 0) same ∙ empty-length (bound_for shard_of sid txs) in
            ap (λ b. sent_if (b || (length w == 0)) sid w rest) e
            ∙ elim (Bool-cases (is_empty (bound_for shard_of sid txs))) [
              | inl f ↦
                  ap (λ b. sent_if b sid w rest) (size ∙ f) ∙ skipped (rw (is_target, e, f) refl)
              | inr f ↦
                  ap (λ b. sent_if b sid w rest) (size ∙ f)
                  ∙ ap (λ v. sent_if false sid v rest) same
                  ∙ ap (◌∷◌ (relay_of shard_of own seq txs sid)) later
                  ∙ ap (map (relay_of shard_of own seq txs)) (
                      sym (
                        keep-hit (is_target shard_of own txs) sid (shards_from rounds (suc sid))
                          (rw (is_target, e, f) refl)))
            ]
      ]

module _ (E : Env) (encode : Block → Bytes) (decode : Bytes → Option Block)
    (now : Node (BlockChain E) → ℕ) where
  -- What the main node reports of a block.
  abbrev pub report_of :
      (Bytes → ℕ) → Request → List Transaction → Node (BlockChain E) → BlockInfoMsg
  report_of shard_of r txs n = record {
    block_body_length = length txs;
    excuted_txs = bound_for shard_of n.shard_id txs;
    epoch = 0;
    propose_time = r.req_time;
    commit_time = now n;
    sender_shard_id = n.shard_id;
    relay1_tx_num = length (map relayed_tx (leaving shard_of n.shard_id txs));
    relay1_txs = map relayed_tx (leaving shard_of n.shard_id txs);
    broker1_tx_num = 0;
    broker1_txs = [];
    broker2_tx_num = 0;
    broker2_txs = [];
  }

  cleared : Node (BlockChain E) → Node (BlockChain E)
  cleared n = record n {
    cur_chain = record n.cur_chain { tx_pool = record n.cur_chain.tx_pool { relay_pool = none } };
  }

  finish :
      Request → Block → Node (BlockChain E) → Sorted → Outcome (Node (BlockChain E) × List RelayOut)
  finish r block n s = ok (
    record n { cur_chain = record n.cur_chain { tx_pool = TxPool.clear_relay_pool s.pool } },
    send_relays n.shard_id n.sequence_id (TxPool.relay_map s.pool) n.cur_chain.config.shard_nums 0
        ++ (block_info (block_info_of E encode decode now r block s n) ∷ []),
  )

  -- When the main node has added a block whose recipients' shards are known, it sends to each other
  -- shard, in order, one message with exactly the block's transactions for recipients there, in the
  -- block's order and marked as relayed, and none to a shard with no such transaction; then a report
  -- that splits the block into the transactions that end here and those that were relayed. Its queue
  -- stays, and its relay pool is cleared. Nothing depends on whether a sender could pay.
  pub relay_block-sends :
      (shard_of : Bytes → ℕ) (r : Request) (block : Block) (n : Node (BlockChain E))
      → All (λ tx. shard_of_addr E n.cur_chain tx.recipient ≡ ok (shard_of tx.recipient)) block.body
      → relay_block E encode decode now r block n
        ≡ ok (
          record n {
            cur_chain = record n.cur_chain {
              tx_pool = record n.cur_chain.tx_pool { relay_pool = none };
            };
          },
          map (relay_of shard_of n.shard_id n.sequence_id block.body) (
                keep
                  (is_target shard_of n.shard_id block.body)
                  (shards_from n.cur_chain.config.shard_nums 0))
              ++ (block_info (report_of shard_of r block.body n) ∷ []),
        )
  unfolding relay_block sorted TxPool.clear_relay_pool bound cleared finish
  relay_block-sends shard_of r block n h =
      let (m, made, waits) =
        sort_txs_lem (shard_of_addr E n.cur_chain) shard_of n.shard_id block.body
          n.cur_chain.tx_pool.tx_queue [] [] [] h in
      ap (λ o. o >>= finish r block n) made
      ∙ ap (λ l. ok (cleared n, l ++ (block_info (report_of shard_of r block.body n) ∷ [])))
          (send_relays_lem shard_of n.shard_id n.sequence_id block.body m
            (λ sid ne.
              waits sid ne
              ∙ ap (λ l. l ++ map relayed_tx (bound_for shard_of sid block.body)) (waiting-nil sid))
            n.cur_chain.config.shard_nums 0)
