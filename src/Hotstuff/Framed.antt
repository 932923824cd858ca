-- ===== src/Hotstuff/Framed.antt =====
-- consensus_shard/synchotstuff_all/synchotstuffMod_Relay_utxo.go: what the extra module changes.
use utxo_block_emulator.Base.{
  ℕ, [], Bool, true, false, Option, Bytes, bytes_eq, nat_eq, ◌==◌, ◌≡◌, refl, subst, Bool-cases,
  inl, inr, add_u64, ◌^◌, ◌-◌, not,
}
use utxo_block_emulator.Base.GoMap
use utxo_block_emulator.Base.GoMap.{GoMap}
use utxo_block_emulator.Base.Outcome.{
  ok, or_panic, Ensures, done, panics, Ensures-after, Ensures-eq, Ensures-if, ok-injective,
}
use utxo_block_emulator.Core.Block.{Block}
use utxo_block_emulator.Core.TxPool
use utxo_block_emulator.Message.{Request, Propose, SendOldMessage}
use utxo_block_emulator.Chain.Blockchain.{
  Env, BlockChain, shard_of_addr, generate_block, add_block, is_valid_utxo_block,
}
use utxo_block_emulator.Pbft.Modules.UtxoRelay.{sort_utxos}
use utxo_block_emulator.Hotstuff.{HotstuffNode}
use utxo_block_emulator.Hotstuff.Relay.{
  make_request, check_proposal, commit_proposal, relay_committed, unsorted, add_blocks_asked,
  add_asked, has_all, utxo_relay_mod,
}
use utxo_block_emulator.Hotstuff.Frame.{SameControl, IsFramed}

-- A node whose chain, pool and sequence id may have changed.
changed_control :
    {C : Type 0} (n : HotstuffNode C) (c : C) (pool : GoMap Bytes Request) (seq : ℕ)
    → SameControl n (record n { cur_chain = c; request_pool = pool; sequence_id = seq })
changed_control n c pool seq = record {
  node_id = refl;
  view = refl;
  is_reply = refl;
  sequence_lock = refl;
  ask_for_lock = refl;
  tcp_pool_lock = refl;
  timers = refl;
}

-- A pool that is the same too.
abbrev Framed : {C : Type 0} → HotstuffNode C → HotstuffNode C → Type 0
Framed n n' = SameControl n n' × (n'.request_pool ≡ n.request_pool)

chain_alone :
    {C : Type 0} (n : HotstuffNode C) (c : C) (seq : ℕ)
    → Framed n (record n { cur_chain = c; sequence_id = seq })
chain_alone n c seq = (changed_control n c n.request_pool seq, refl)

module _ (E : Env) (encode : Block → Bytes) (decode : Bytes → Option Block)
    (now : HotstuffNode (BlockChain E) → ℕ) where
  make_request-Framed :
      (n : HotstuffNode (BlockChain E))
      → Ensures (λ r. Framed n r.0) (make_request E encode decode now n)
  unfolding make_request
  make_request-Framed n =
      Ensures-after (generate_block E (now n) n.cur_chain) _
        (λ r. done (chain_alone n r.1 n.sequence_id))

  commit_proposal-Framed :
      (msg : Propose) (n : HotstuffNode (BlockChain E))
      → Ensures (λ r. Framed n r.0) (commit_proposal E encode decode now msg n)
  unfolding commit_proposal relay_committed
  commit_proposal-Framed msg n =
      Ensures-after (or_panic (GoMap.lookup msg.digest n.request_pool)) _ (λ r.
        Ensures-after (or_panic (decode r.content)) _ (λ block.
          Ensures-after (add_block E block n.cur_chain) _ (λ chain.
            Ensures-if (n.node_id == n.view)
              (relay_committed E encode decode now r block (record n { cur_chain = chain }))
              (ok (record n { cur_chain = chain }, []))
              (Ensures-after
                (sort_utxos (shard_of_addr E chain) n.shard_id block.utxo
                  (unsorted chain.utxo_tx_pool))
                _
                (λ s. done (
                  chain_alone n (record chain { utxo_tx_pool = TxPool.clear_relay_pool s.pool })
                    n.sequence_id)))
              (done (chain_alone n chain n.sequence_id)))))

  add_blocks_asked-Framed :
      (msg : SendOldMessage) (n : HotstuffNode (BlockChain E))
      → Ensures (λ n'. Framed n n') (add_blocks_asked E encode decode now msg n)
  unfolding add_blocks_asked
  add_blocks_asked-Framed msg n =
      Ensures-if (not (has_all E encode decode now msg)) _ _
        (done (chain_alone n n.cur_chain n.sequence_id))
        (Ensures-after (add_asked E encode decode now msg.old_request n.cur_chain) _ (λ chain.
          Ensures-if (msg.seq_end_height == 2 ^ 64 - 1) _ _ panics
            (done (chain_alone n chain (add_u64 msg.seq_end_height 1)))))

  -- What a check of a proposal makes of the node.
  abbrev Checked :
      Propose → HotstuffNode (BlockChain E) → HotstuffNode (BlockChain E) × Bool → Type 0
  Checked msg n r =
      SameControl n r.0
      × (r.0.request_pool ≡ elim r.1 [
        | true ↦ GoMap.insert msg.digest msg.request_msg n.request_pool
        | false ↦ n.request_pool
      ])

  check_proposal-Checked :
      (msg : Propose) (n : HotstuffNode (BlockChain E))
      → Ensures (Checked msg n) (check_proposal E encode decode now msg n)
  unfolding check_proposal
  check_proposal-Checked msg n =
      Ensures-after (or_panic (decode msg.request_msg.content)) _ (λ block.
        elim (Bool-cases (is_valid_utxo_block E block n.cur_chain)) [
          | inl e ↦ rw e (
              done (
                changed_control n n.cur_chain
                    (GoMap.insert msg.digest msg.request_msg n.request_pool) n.sequence_id,
                refl,
              ))
          | inr e ↦ rw e (done (chain_alone n n.cur_chain n.sequence_id))
        ])

  -- The module changes the chain only, but for the request that a valid proposal puts under its digest,
  -- and for the sequence id that a complete answer with old blocks sets.
  pub utxo_relay_mod-IsFramed : IsFramed (utxo_relay_mod E encode decode now)
  utxo_relay_mod-IsFramed = record {
    in_propose = λ msg n n' b h. (Ensures-eq (check_proposal-Checked msg n) h).0;
    in_propose_pool = λ msg n n' b h. (Ensures-eq (check_proposal-Checked msg n) h).1;
    in_commit = λ msg n n' xs h. Ensures-eq (commit_proposal-Framed msg n) h;
    for_old_seq =
        λ msg n n' h. subst (Framed n) (ok-injective h) (chain_alone n n.cur_chain n.sequence_id);
    sequential = λ msg n n' h. Ensures-eq (add_blocks_asked-Framed msg n) h;
  }

  -- So does the generation of a block.
  pub make_request-keeps :
      (n n' : HotstuffNode (BlockChain E)) (r : Request)
      → make_request E encode decode now n ≡ ok (n', r)
      → SameControl n n' × (n'.request_pool ≡ n.request_pool)
  make_request-keeps n n' r h = Ensures-eq (make_request-Framed n) h
