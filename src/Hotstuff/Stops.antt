-- ===== src/Hotstuff/Stops.antt =====
-- consensus_shard/synchotstuff_all: votes that stop a node.
use utxo_block_emulator.Base.{
  List, [], ◌∷◌, map, true, false, ◌≡◌, ◌≢◌, refl, sym, ap, ◌∙◌, subst, Bytes, bytes_eq, nat_eq,
  if◌then◌else◌, arith, eq_iff,
}
use utxo_block_emulator.Base.GoMap
use utxo_block_emulator.Base.GoMap.{GoMap, lookup-insert}
use utxo_block_emulator.Base.Outcome.{Outcome, ok}
use utxo_block_emulator.Message.{Request, Vote}
use utxo_block_emulator.Hotstuff.{
  HotstuffNode, HotstuffMod, HotstuffMsg, vote_msg, HotstuffEvent, receives,
}
use utxo_block_emulator.Hotstuff.Handlers.{
  count_vote, vote_counted, handle_vote, handle_message, receive, step, run, interrupt,
}
use utxo_block_emulator.Hotstuff.Steps.{run-cons, receive-locked}

module _ {C X : Type 0} (get_digest : Request → Bytes)
    (make_request : HotstuffNode C → Outcome (HotstuffNode C × Request))
    (ihm : HotstuffMod C X) where
  abbrev messages : List HotstuffMsg → List HotstuffEvent
  messages ms = map receives ms

  deaf :
      (ms : List HotstuffMsg) (n : HotstuffNode C)
      → n.tcp_pool_lock ≡ true
      → run get_digest make_request ihm (messages ms) n ≡ ok (n, [])
  unfolding run
  deaf [] n h = refl
  deaf (m ∷ ms) n h =
      run-cons get_digest make_request ihm (receives m) (messages ms) n n n [] []
        (receive-locked get_digest make_request ihm m n h) (deaf ms n h)

  count_vote-same :
      (msg : Vote) (n : HotstuffNode C)
      → ((count_vote get_digest make_request ihm msg n).sequence_id ≡ n.sequence_id)
        × ((count_vote get_digest make_request ihm msg n).height_to_digest ≡ n.height_to_digest)
  unfolding count_vote
  count_vote-same msg n = ground arith

  equivocates :
      (msg : Vote) (n : HotstuffNode C)
      → msg.seq_id ≡ n.sequence_id
      → msg.digest ≢ GoMap.get_or msg.seq_id [] n.height_to_digest
      → vote_counted get_digest make_request ihm msg n
        ≡ ok (interrupt get_digest make_request ihm n, [])
  unfolding vote_counted
  equivocates msg n height other =
      ground (arith, eq_iff msg.digest (GoMap.get_or msg.seq_id [] n.height_to_digest))

  receive-vote :
      (msg : Vote) (n : HotstuffNode C)
      → n.tcp_pool_lock ≡ false
      → msg.seq_id ≡ n.sequence_id
      → msg.digest ≢ GoMap.get_or msg.seq_id [] n.height_to_digest
      → step get_digest make_request ihm (receives (vote_msg msg)) n
        ≡ ok (
          interrupt get_digest make_request ihm (count_vote get_digest make_request ihm msg n),
          [],
        )
  unfolding step receive handle_message handle_vote
  receive-vote msg n free height other =
      let (q, t) = count_vote-same msg n in
      ap
        (λ b.
          if b
          then ok (n, [])
          else vote_counted get_digest make_request ihm msg
              (count_vote get_digest make_request ihm msg n))
        free
      ∙ equivocates msg (count_vote get_digest make_request ihm msg n) (height ∙ sym q)
          (subst (λ m. msg.digest ≢ GoMap.get_or msg.seq_id [] m) (sym t) other)

  -- A node that handles messages, and gets a vote for the height that it is at whose digest is not
  -- that of its proposal for the height, counts the vote if it is the main node, and then handles no
  -- message any more: whatever comes next is not read, and its state stays as it is. A node that has no
  -- proposal for the height yet has the empty digest, so a vote that overtakes its proposal does this.
  pub vote_stops_node :
      (msg : Vote) (ms : List HotstuffMsg) (n : HotstuffNode C)
      → n.tcp_pool_lock ≡ false
      → msg.seq_id ≡ n.sequence_id
      → msg.digest ≢ GoMap.get_or msg.seq_id [] n.height_to_digest
      → run get_digest make_request ihm (receives (vote_msg msg) ∷ messages ms) n
        ≡ ok (
          interrupt get_digest make_request ihm (count_vote get_digest make_request ihm msg n),
          [],
        )
  vote_stops_node msg ms n free height other =
      run-cons get_digest make_request ihm (receives (vote_msg msg)) (messages ms) n _ _ [] []
        (receive-vote msg n free height other)
        (deaf ms
          (interrupt get_digest make_request ihm (count_vote get_digest make_request ihm msg n))
          refl)
