-- ===== src/Pbft/Modules/Framed.antt =====
-- consensus_shard/pbft_all: the relay modules keep to the frame that the protocol relies on.
use utxo_block_emulator.Base.{
  ℕ, ◌^◌, ◌-◌, add_u64, [], Bool, true, false, Option, ◌≡◌, refl, sym, ap, subst, Bytes, bytes_eq,
  nat_eq, ◌==◌, Bool-cases, inl, inr,
}
use utxo_block_emulator.Base.GoMap
use utxo_block_emulator.Base.GoMap.{GoMap}
use utxo_block_emulator.Base.Outcome.{
  ok, or_panic, ok-injective, Ensures, panic, done, panics, Ensures-eq, Ensures-after, Ensures-if,
}
use utxo_block_emulator.Core.Block.{Block}
use utxo_block_emulator.Core.TxPool
use utxo_block_emulator.Message.{Request, PrePrepare, Commit, SendOldMessage}
use utxo_block_emulator.Chain.Blockchain.{
  Env, BlockChain, shard_of_addr, add_block, generate_block, is_valid_block, is_valid_utxo_block,
}
use utxo_block_emulator.Pbft.{Node}
use utxo_block_emulator.Pbft.Frame.{SameVotes, SameState, IsFramed}
use utxo_block_emulator.Pbft.Modules.{
  propose_block, check_block, handle_sequence, add_sequence, is_complete, add_old_blocks,
}
use utxo_block_emulator.Pbft.Modules.RawRelay.{
  raw_relay_mod, commit_block, relay_block, sort_txs, unsorted,
}
use utxo_block_emulator.Pbft.Modules.UtxoRelay.{
  utxo_relay_mod, commit_utxo_block, relay_utxo_block, sort_utxos, unsorted_utxos,
}

module _ {C : Type 0} where
  same_votes :
      (n : Node C) (c : C) (pool : GoMap Bytes Request) (seq : ℕ)
      → SameVotes n (record n { cur_chain = c; request_pool = pool; sequence_id = seq })
  same_votes n c pool seq = record {
    running_node = refl;
    node_id = refl;
    malicious_nums = refl;
    view = refl;
    cnt_prepare_confirm = refl;
    cnt_commit_confirm = refl;
    is_commit_bordcast = refl;
    is_reply = refl;
    height_to_digest = refl;
    sequence_lock = refl;
    ask_for_lock = refl;
    next_ptr = refl;
  }

  -- A node whose chain alone has changed.
  same_state : (n n' : Node C) (c : C) → record n { cur_chain = c } ≡ n' → SameState n n'
  same_state n n' c h = subst (SameState n) h (record {
    votes = same_votes n c n.request_pool n.sequence_id;
    request_pool = refl;
    sequence_id = refl;
  })

-- Nothing of the node but its chain has changed.
OnlyChain : {C X : Type 0} → Node C → Node C × X → Type 0
OnlyChain {C} n r = (c : C) × (record n { cur_chain = c } ≡ r.0)

module _ (E : Env) (encode : Block → Bytes) (decode : Bytes → Option Block)
    (now : Node (BlockChain E) → ℕ) where
  commit_block-OnlyChain :
      (msg : Commit) (n : Node (BlockChain E))
      → Ensures (OnlyChain n) (commit_block E encode decode now msg n)
  unfolding commit_block relay_block OnlyChain
  commit_block-OnlyChain msg n =
      Ensures-after (or_panic (GoMap.lookup msg.digest n.request_pool)) _ (λ r.
        Ensures-after (or_panic (decode r.content)) _ (λ block.
          Ensures-after (add_block E block n.cur_chain) _ (λ chain.
            Ensures-if (n.node_id == n.view)
              (relay_block E encode decode now r block (record n { cur_chain = chain }))
              (ok (record n { cur_chain = chain }, []))
              (Ensures-after
                (sort_txs (shard_of_addr E chain) n.shard_id block.body
                  (unsorted E encode decode now chain.tx_pool))
                _ (λ s. done (record chain { tx_pool = TxPool.clear_relay_pool s.pool }, refl)))
              (done (chain, refl)))))

  commit_utxo_block-OnlyChain :
      (msg : Commit) (n : Node (BlockChain E))
      → Ensures (OnlyChain n) (commit_utxo_block E encode decode now msg n)
  unfolding commit_utxo_block relay_utxo_block OnlyChain
  commit_utxo_block-OnlyChain msg n =
      Ensures-after (or_panic (GoMap.lookup msg.digest n.request_pool)) _ (λ r.
        Ensures-after (or_panic (decode r.content)) _ (λ block.
          Ensures-after (add_block E block n.cur_chain) _ (λ chain.
            Ensures-if (n.node_id == n.view)
              (relay_utxo_block E encode decode now r block (record n { cur_chain = chain }))
              (ok (record n { cur_chain = chain }, []))
              (Ensures-after
                (sort_utxos (shard_of_addr E chain) n.shard_id block.utxo
                  (unsorted_utxos E encode decode now chain.utxo_tx_pool))
                _
                (λ s. done (record chain { utxo_tx_pool = TxPool.clear_relay_pool s.pool }, refl)))
              (done (chain, refl)))))

  propose_block-OnlyChain :
      (n : Node (BlockChain E)) → Ensures (OnlyChain n) (propose_block E encode decode now n)
  unfolding propose_block OnlyChain
  propose_block-OnlyChain n =
      Ensures-after (generate_block E (now n) n.cur_chain) _ (λ r. done (r.1, refl))

  -- What a check of a pre-prepare makes of the node.
  Checked : PrePrepare → Node (BlockChain E) → Node (BlockChain E) × Bool → Type 0
  Checked msg n r =
      record n {
        request_pool = elim r.1 [
          | true ↦ GoMap.insert msg.digest msg.request_msg n.request_pool
          | false ↦ n.request_pool
        ];
      }
      ≡ r.0

  accepted : PrePrepare → Node (BlockChain E) → Node (BlockChain E)
  accepted msg n = record n {
    request_pool = GoMap.insert msg.digest msg.request_msg n.request_pool;
  }

  check_block-Checked :
      (is_valid : Block → BlockChain E → Bool) (msg : PrePrepare) (n : Node (BlockChain E))
      → Ensures (Checked msg n) (check_block E encode decode now is_valid msg n)
  unfolding check_block Checked accepted
  check_block-Checked is_valid msg n =
      Ensures-after (or_panic (decode msg.request_msg.content)) _ (λ block.
        elim (Bool-cases (is_valid block n.cur_chain)) [
          | inl e ↦ rw e (done {a = (accepted msg n, true)} refl)
          | inr e ↦ rw e (done {a = (n, false)} refl)
        ])

  -- What an answer with old blocks makes of it.
  Moved : Node (BlockChain E) → Node (BlockChain E) → Type 0
  Moved n n' = (c : BlockChain E) × (seq : ℕ) × (record n { cur_chain = c; sequence_id = seq } ≡ n')

  handle_sequence-Moved :
      (msg : SendOldMessage) (n : Node (BlockChain E))
      → Ensures (Moved n) (handle_sequence E encode decode now msg n)
  unfolding handle_sequence add_sequence Moved
  handle_sequence-Moved msg n =
      Ensures-if (is_complete E encode decode now msg) (add_sequence E encode decode now msg n)
        (ok n)
        (Ensures-after (add_old_blocks E encode decode now msg.old_request n.cur_chain) _ (λ chain.
          Ensures-if (msg.seq_end_height == 2 ^ 64 - 1) panic
            (ok (record n { cur_chain = chain; sequence_id = add_u64 msg.seq_end_height 1 })) panics
            (done (chain, add_u64 msg.seq_end_height 1, refl))))
        (done (n.cur_chain, n.sequence_id, refl))

  chain_only :
      {X : Type 0} (n n' : Node (BlockChain E)) (x : X) → OnlyChain n (n', x) → SameState n n'
  unfolding OnlyChain
  chain_only n n' x (c, e) = same_state n n' c e

  checked :
      (msg : PrePrepare) (n n' : Node (BlockChain E)) (b : Bool)
      → Checked msg n (n', b)
      → SameVotes n n'
        × (n'.sequence_id ≡ n.sequence_id)
        × (n'.request_pool ≡ elim b [
          | true ↦ GoMap.insert msg.digest msg.request_msg n.request_pool
          | false ↦ n.request_pool
        ])
  unfolding Checked
  checked msg n n' b h = (
    subst (SameVotes n) h (same_votes n n.cur_chain _ n.sequence_id),
    ap (λ x. x.sequence_id) (sym h),
    ap (λ x. x.request_pool) (sym h),
  )

  moved :
      (n n' : Node (BlockChain E))
      → Moved n n'
      → SameVotes n n' × (n'.request_pool ≡ n.request_pool)
  unfolding Moved
  moved n n' (c, seq, h) =
      (subst (SameVotes n) h (same_votes n c n.request_pool seq), ap (λ x. x.request_pool) (sym h))

  unchanged : (n n' : Node (BlockChain E)) → ok n ≡ ok n' → SameState n n'
  unchanged n n' h = same_state n n' n.cur_chain (ok-injective h)

  -- The relay module changes the chain only, but for the request that a valid pre-prepare puts under
  -- its digest, and for the sequence id that a complete answer with old blocks sets.
  pub raw_relay_mod-IsFramed : IsFramed (raw_relay_mod E encode decode now)
  raw_relay_mod-IsFramed = record {
    in_propose = λ n n' r h. chain_only n n' r (Ensures-eq (propose_block-OnlyChain n) h);
    in_pre_prepare = λ msg n n' b h.
        let (v, q, p) =
          checked msg n n' b (Ensures-eq (check_block-Checked (is_valid_block E) msg n) h) in
        (v, q);
    in_pre_prepare_pool = λ msg n n' b h.
        (checked msg n n' b (Ensures-eq (check_block-Checked (is_valid_block E) msg n) h)).2;
    in_prepare = λ msg n n' h. unchanged n n' h;
    in_commit = λ msg n n' xs h. chain_only n n' xs (Ensures-eq (commit_block-OnlyChain msg n) h);
    for_old_seq = λ msg n n' h. unchanged n n' h;
    sequential = λ msg n n' h. moved n n' (Ensures-eq (handle_sequence-Moved msg n) h);
  }

  -- So does the UTXO module.
  utxo_relay_mod-IsFramed : IsFramed (utxo_relay_mod E encode decode now)
  utxo_relay_mod-IsFramed = record {
    in_propose = λ n n' r h. chain_only n n' r (Ensures-eq (propose_block-OnlyChain n) h);
    in_pre_prepare = λ msg n n' b h.
        let (v, q, p) =
          checked msg n n' b (Ensures-eq (check_block-Checked (is_valid_utxo_block E) msg n) h) in
        (v, q);
    in_pre_prepare_pool = λ msg n n' b h.
        (checked msg n n' b (Ensures-eq (check_block-Checked (is_valid_utxo_block E) msg n) h)).2;
    in_prepare = λ msg n n' h. unchanged n n' h;
    in_commit =
        λ msg n n' xs h. chain_only n n' xs (Ensures-eq (commit_utxo_block-OnlyChain msg n) h);
    for_old_seq = λ msg n n' h. unchanged n n' h;
    sequential = λ msg n n' h. moved n n' (Ensures-eq (handle_sequence-Moved msg n) h);
  }
