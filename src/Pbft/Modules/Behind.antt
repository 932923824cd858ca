-- ===== src/Pbft/Modules/Behind.antt =====
-- consensus_shard/pbft_all: a node that fell behind, and an answer that does not hold all the blocks.
use utxo_block_emulator.Base.{
  ℕ, List, [], ◌∷◌, Bool, true, false, Option, ◌≡◌, refl, sym, ap, ◌∙◌, Bytes, nat_eq, bytes_eq,
  if◌then◌else◌, subst, ◌≤◌, ◌<◌, ◌^◌, length, Bool-cases, Option-cases, inl, inr, add_u64,
}
use utxo_block_emulator.Base.GoMap
use utxo_block_emulator.Base.Outcome.{
  Outcome, ok, panic, or_panic, ◌>>=◌, Ensures, done, panics, Ensures-eq, Ensures-bind,
  Ensures-after, Ensures-if,
}
use utxo_block_emulator.Core.Block.{Block}
use utxo_block_emulator.Message.{Request, PrePrepare, SendOldMessage}
use utxo_block_emulator.Chain.Blockchain.{Env, BlockChain, is_valid_block}
use utxo_block_emulator.Pbft.{Node, Sent, decoded, InsideMod}
use utxo_block_emulator.Pbft.Handlers.{
  handle_send_old_seq, prepare_pending, store_old, release_ask, pending, pre_prepare_of,
}
use utxo_block_emulator.Pbft.Modules.{
  RelayOut, is_complete, check_block, handle_sequence, add_sequence,
}
use utxo_block_emulator.Pbft.Modules.RawRelay.{raw_relay_mod}
use utxo_block_emulator.Pbft.Modules.RawBroker.{raw_broker_mod, handle_broker_sequence-ignores}

-- The bookkeeping of an answer with old blocks keeps to the maps of requests.
store_old-chain :
    {C X : Type 0} (get_digest : Request → Bytes) (ihm : InsideMod C X) (height : ℕ)
    (rs : List Request) (n : Node C)
    → (store_old get_digest ihm height rs n).cur_chain ≡ n.cur_chain
unfolding store_old
store_old-chain get_digest ihm height [] n = refl
store_old-chain get_digest ihm height (r ∷ rs) n =
    store_old-chain get_digest ihm (add_u64 height 1) rs (record n {
      request_pool = GoMap.insert (get_digest r) r n.request_pool;
      height_to_digest = GoMap.insert height (get_digest r) n.height_to_digest;
      is_reply = GoMap.insert (get_digest r) true n.is_reply;
    })

module _ (E : Env) (encode : Block → Bytes) (decode : Bytes → Option Block)
    (now : Node (BlockChain E) → ℕ) (get_digest : Request → Bytes)
    (ihm : InsideMod (BlockChain E) RelayOut)
    (checks : (msg : PrePrepare) (n : Node (BlockChain E))
      → ihm.handle_in_pre_prepare msg n
        ≡ check_block E encode decode now (is_valid_block E) msg n) where
  -- The chain and the sequence id of a result.
  At : BlockChain E → ℕ → Node (BlockChain E) × List (Sent RelayOut) → Type 0
  At c seq r = (r.0.cur_chain ≡ c) × (r.0.sequence_id ≡ seq)

  check_block-At :
      (is_valid : Block → BlockChain E → Bool) (msg : PrePrepare) (n : Node (BlockChain E))
      → Ensures
          (λ r. (r.0.cur_chain ≡ n.cur_chain) × (r.0.sequence_id ≡ n.sequence_id))
          (check_block E encode decode now is_valid msg n)
  unfolding check_block
  check_block-At is_valid msg n =
      Ensures-after (or_panic (decode msg.request_msg.content)) _ (λ block.
        elim (Bool-cases (is_valid block n.cur_chain)) [
          | inl e ↦ rw e (done (refl, refl))
          | inr e ↦ rw e (done (refl, refl))
        ])

  prepare_pending-At :
      (n : Node (BlockChain E))
      → Ensures (At n.cur_chain n.sequence_id) (prepare_pending get_digest ihm n)
  unfolding prepare_pending At
  prepare_pending-At n = elim (Option-cases (pending get_digest ihm n)) [
    | inl e ↦ rw (prepare_pending, e) (done (refl, refl))
    | inr (r, e) ↦
        rw (prepare_pending, e)
          (Ensures-bind (ihm.handle_in_pre_prepare (pre_prepare_of get_digest ihm r n) n) _
            (subst (Ensures _) (sym (checks (pre_prepare_of get_digest ihm r n) n))
              (check_block-At (is_valid_block E) (pre_prepare_of get_digest ihm r n) n))
            (λ a h. done h))
  ]

  release_ask-At :
      (c : BlockChain E) (seq : ℕ) (r : Node (BlockChain E) × List (Sent RelayOut))
      → At c seq r
      → Ensures (At c seq) (release_ask get_digest ihm r)
  unfolding release_ask At
  release_ask-At c seq (n, out) h =
      Ensures-if n.ask_for_lock (ok (record n { ask_for_lock = false }, out)) panic (done h) panics

  -- The node after the answer's requests are stored, and what follows.
  caught_up : SendOldMessage → Node (BlockChain E) → Node (BlockChain E)
  caught_up msg n = record (store_old get_digest ihm msg.seq_start_height msg.old_request n) {
    sequence_id = add_u64 msg.seq_end_height 1;
  }

  rest : SendOldMessage → Node (BlockChain E) → Outcome (Node (BlockChain E) × List (Sent RelayOut))
  rest msg n = prepare_pending get_digest ihm (caught_up msg n) >>= release_ask get_digest ihm

  skips :
      (msg : SendOldMessage) (n : Node (BlockChain E))
      → ihm.handle_for_sequential_request msg (decoded n) ≡ ok (decoded n)
      → handle_send_old_seq get_digest ihm msg n ≡ rest msg (decoded n)
  unfolding handle_send_old_seq rest caught_up
  skips msg n ignored = ap (λ o. o >>= rest msg) ignored

  rest-At :
      (msg : SendOldMessage) (n : Node (BlockChain E))
      → Ensures (At n.cur_chain (add_u64 msg.seq_end_height 1)) (rest msg n)
  unfolding rest caught_up At
  rest-At msg n =
      Ensures-bind (prepare_pending get_digest ihm (caught_up msg n)) (release_ask get_digest ihm)
        (prepare_pending-At (caught_up msg n))
        (λ r h.
          release_ask-At n.cur_chain (add_u64 msg.seq_end_height 1) r
            (h.0 ∙ store_old-chain get_digest ihm msg.seq_start_height msg.old_request n, h.1))

  ignored :
      (msg : SendOldMessage) (n n' : Node (BlockChain E)) (out : List (Sent RelayOut))
      → ihm.handle_for_sequential_request msg (decoded n) ≡ ok (decoded n)
      → handle_send_old_seq get_digest ihm msg n ≡ ok (n', out)
      → (n'.cur_chain ≡ n.cur_chain) × (n'.sequence_id ≡ add_u64 msg.seq_end_height 1)
  unfolding At
  ignored msg n n' out seen h = Ensures-eq (rest-At msg (decoded n)) (sym (skips msg n seen) ∙ h)

module _ (E : Env) (encode : Block → Bytes) (decode : Bytes → Option Block)
    (now : Node (BlockChain E) → ℕ) (get_digest : Request → Bytes) where
  -- An answer that does not hold a request for each height it names adds no block. The node's sequence
  -- id moves past those heights all the same, so that the blocks between are missing from its chain.
  pub incomplete_answer_skips_blocks :
      (msg : SendOldMessage) (n n' : Node (BlockChain E)) (out : List (Sent RelayOut))
      → is_complete E encode decode now msg ≡ false
      → handle_send_old_seq get_digest (raw_relay_mod E encode decode now) msg n ≡ ok (n', out)
      → (n'.cur_chain ≡ n.cur_chain) × (n'.sequence_id ≡ add_u64 msg.seq_end_height 1)
  unfolding handle_sequence
  incomplete_answer_skips_blocks msg n n' out incomplete h =
      ignored E encode decode now get_digest (raw_relay_mod E encode decode now) (λ m k. refl) msg n
        n' out
        (ap (λ b. if b then add_sequence E encode decode now msg (decoded n) else ok (decoded n))
          incomplete)
        h

  -- A node with the broker module adds no block of an answer whose heights are in order and whose end
  -- height is below 2^63, if it holds at least one request and fewer than 2^63: the module compares the
  -- difference of the heights the wrong way round. Where its handler comes to an end, the node's sequence
  -- id has moved past the heights all the same, so that the blocks between are missing from its chain.
  pub broker_answer_skips_blocks :
      (msg : SendOldMessage) (n n' : Node (BlockChain E)) (out : List (Sent RelayOut))
      → msg.seq_start_height ≤ msg.seq_end_height
      → msg.seq_end_height < 2 ^ 63
      → 0 < length msg.old_request
      → length msg.old_request < 2 ^ 63
      → handle_send_old_seq get_digest (raw_broker_mod E encode decode now) msg n ≡ ok (n', out)
      → (n'.cur_chain ≡ n.cur_chain) × (n'.sequence_id ≡ add_u64 msg.seq_end_height 1)
  broker_answer_skips_blocks msg n n' out ordered small some_old few h =
      ignored E encode decode now get_digest (raw_broker_mod E encode decode now) (λ m k. refl) msg
        n n' out
        (handle_broker_sequence-ignores E encode decode now msg (decoded n) ordered small some_old
          few)
        h
