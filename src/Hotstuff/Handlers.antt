-- ===== src/Hotstuff/Handlers.antt =====
-- consensus_shard/synchotstuff_all/messageHandle.go: `Propose` (one round), the message handlers and
-- `WaitToCommit`.
use utxo_block_emulator.Base.{
  ℕ, zero, suc, ◌-◌, List, [], ◌∷◌, ◌++◌, Bool, true, false, not, ◌&&◌, none, some, Bytes, bytes_eq,
  nat_eq, ◌==◌, if◌then◌else◌, ltb, add_u64, get_elem?,
}
use utxo_block_emulator.Base.GoMap
use utxo_block_emulator.Base.GoMap.{GoMap}
use utxo_block_emulator.Base.Outcome.{Outcome, ok, panic, blocked, ◌>>=◌}
use utxo_block_emulator.Message.{
  ShardNode, Request, Propose, Vote, RequestOldMessage, SendOldMessage,
}
use utxo_block_emulator.Hotstuff.{
  HotstuffNode, Action, broadcast_propose, broadcast_vote, request_old, send_old, executes, extra,
  HotstuffMod, HotstuffMsg, propose_msg, vote_msg, request_old_seq, send_old_seq, HotstuffEvent,
  proposes, receives, expires,
}

abbrev pub extras : {X : Type 0} → List X → List (Action X)
extras [] = []
extras (x ∷ xs) = extra x ∷ extras xs

-- The list without its i-th element.
abbrev pub remove : {A : Type 0} → ℕ → List A → List A
remove i [] = []
remove zero (x ∷ xs) = xs
remove (suc i) (x ∷ xs) = x ∷ remove i xs

-- `get_digest` is SHA-256 of the JSON of a request; `make_request` generates a block and wraps it.
module _ {C X : Type 0} (get_digest : Request → Bytes)
    (make_request : HotstuffNode C → Outcome (HotstuffNode C × Request))
    (ihm : HotstuffMod C X) where
  abbrev pub Reply : Type 0
  Reply = Outcome (HotstuffNode C × List (Action X))

  -- The request is stored under its digest, and the digest under the height.
  abbrev pub store_request : Propose → HotstuffNode C → HotstuffNode C
  store_request msg n = record n {
    request_pool = GoMap.insert (get_digest msg.request_msg) msg.request_msg n.request_pool;
    height_to_digest = GoMap.insert msg.seq_id (get_digest msg.request_msg) n.height_to_digest;
  }

  -- `go node.WaitToCommit(pmsg)`
  abbrev pub start_timer : Propose → HotstuffNode C → HotstuffNode C
  start_timer msg n = record n { timers = n.timers ++ (msg ∷ []) }

  -- One round of `Propose`, from the lock that it takes. A lock that is held keeps it waiting.
  unfoldable pub propose_with : HotstuffNode C → Request → HotstuffNode C × List (Action X)
  propose_with n r =
      let pmsg : Propose = record {
        request_msg = r;
        digest = get_digest r;
        seq_id = n.sequence_id;
      } in
      (start_timer pmsg (store_request pmsg n), broadcast_propose pmsg ∷ [])

  unfoldable pub propose : HotstuffNode C → Reply
  unfolding propose_with
  propose n =
      if not (n.view == n.node_id)
      then ok (n, [])
      else if n.sequence_lock
      then blocked
      else (do (n', r) ← make_request (record n { sequence_lock = true }); ok (propose_with n' r))

  abbrev pub vote_of : Propose → HotstuffNode C → Vote
  vote_of msg n = record {
    request_msg = msg.request_msg;
    digest = msg.digest;
    seq_id = msg.seq_id;
    sender_node = n.running_node;
  }

  abbrev pub vote_if : Bool → Propose → HotstuffNode C → HotstuffNode C × List (Action X)
  vote_if flag msg n =
      if flag then (start_timer msg n, broadcast_vote (vote_of msg n) ∷ []) else (n, [])

  -- A request that the pool does not hold: from a proposal, or from a vote.
  unfoldable pub accept_propose : Propose → HotstuffNode C → Reply
  accept_propose msg n = if not (get_digest msg.request_msg == msg.digest) then ok (n, []) else (do
    (n', flag) ← ihm.handle_in_propose msg n
    ok (vote_if flag msg (store_request msg n')))

  unfoldable pub handle_propose : Propose → HotstuffNode C → Reply
  unfolding accept_propose
  handle_propose msg n = elim (GoMap.lookup msg.digest n.request_pool) [
    | none ↦ accept_propose msg n
    | some _ ↦ ok (n, broadcast_vote (vote_of msg n) ∷ [])
  ]

  abbrev pub main_node : HotstuffNode C → ShardNode
  main_node n = record {
    node_id = n.view;
    shard_id = n.shard_id;
    ip_addr = GoMap.get_or n.view [] (GoMap.get_or n.shard_id [] n.ip_node_table);
  }

  abbrev pub old_request_of : Propose → HotstuffNode C → RequestOldMessage
  old_request_of msg n = record {
    seq_start_height = add_u64 n.sequence_id 1;
    seq_end_height = msg.seq_id;
    server_node = main_node n;
    sender_node = n.running_node;
  }

  -- The pool does not hold the request: the node asks the main node for the blocks.
  unfoldable pub fall_behind : Propose → HotstuffNode C → Reply
  fall_behind msg n =
      if n.ask_for_lock
      then blocked
      else ok (
        record n { is_reply = GoMap.insert msg.digest true n.is_reply; ask_for_lock = true },
        request_old (old_request_of msg n) (main_node n).ip_addr ∷ [],
      )

  unfoldable pub execute : Propose → HotstuffNode C → Reply
  execute msg n = do
    (n', xs) ← ihm.commit msg n
    ok (
      record n' {
        is_reply = GoMap.insert msg.digest true n'.is_reply;
        sequence_id = add_u64 n'.sequence_id 1;
      },
      executes msg ∷ extras xs,
    )

  -- The main node releases the lock that `Propose` took; an unlock of an unlocked mutex is fatal.
  unfoldable pub release_sequence : HotstuffNode C × List (Action X) → Reply
  release_sequence (n, out) =
      if n.node_id == n.view
      then (if n.sequence_lock then ok (record n { sequence_lock = false }, out) else panic)
      else ok (n, out)

  -- `WaitToCommit`, once its timer has ended. Nothing can come from the nil channel.
  unfoldable pub wait_to_commit : Propose → HotstuffNode C → Reply
  unfolding fall_behind execute release_sequence
  wait_to_commit msg n = do
    r ← elim (GoMap.lookup msg.digest n.request_pool) [
      | none ↦ fall_behind msg n
      | some _ ↦ execute msg n
    ]
    release_sequence r

  -- Only the main node counts.
  unfoldable pub count_vote : Vote → HotstuffNode C → HotstuffNode C
  count_vote msg n =
      if n.node_id == n.view
      then record n {
        cnt_vote_confirm =
            GoMap.insert msg.digest (suc (GoMap.get_or msg.digest 0 n.cnt_vote_confirm))
              n.cnt_vote_confirm;
      }
      else n

  -- `node.pBreak <- 1`, which waits for ever.
  abbrev pub interrupt : HotstuffNode C → HotstuffNode C
  interrupt n = record n { tcp_pool_lock = true }

  abbrev pub propose_of : Vote → Propose
  propose_of msg = record {
    request_msg = msg.request_msg;
    digest = msg.digest;
    seq_id = msg.seq_id;
  }

  -- The vote is for the height that the node is at, and not for the block that it has there.
  abbrev pub is_equivocate : Vote → HotstuffNode C → Bool
  is_equivocate msg n =
      not (msg.digest == GoMap.get_or msg.seq_id [] n.height_to_digest)
      && msg.seq_id == n.sequence_id

  unfoldable pub vote_counted : Vote → HotstuffNode C → Reply
  unfolding accept_propose
  vote_counted msg n =
      if is_equivocate msg n
      then ok (interrupt n, [])
      else if ltb n.sequence_id msg.seq_id
      then elim (GoMap.lookup msg.digest n.request_pool) [
        | none ↦ accept_propose (propose_of msg) n
        | some _ ↦ ok (n, [])
      ]
      else ok (n, [])

  unfoldable pub handle_vote : Vote → HotstuffNode C → Reply
  unfolding count_vote vote_counted
  handle_vote msg n = vote_counted msg (count_vote msg n)

  -- `for height := start; height <= end; height++` with its two breaks; `rounds` is end + 1 - start, for
  -- an end below 2^64 - 1.
  unfoldable pub collect_old : (rounds height : ℕ) → HotstuffNode C → List Request
  collect_old zero height n = []
  collect_old (suc rounds) height n =
      let rest = collect_old rounds (suc height) n in
      elim (GoMap.lookup height n.height_to_digest) [
        | none ↦ []
        | some digest ↦ elim (GoMap.lookup digest n.request_pool) [ none ↦ [] | some r ↦ r ∷ rest ]
      ]

  unfoldable pub handle_request_old_seq : RequestOldMessage → HotstuffNode C → Reply
  unfolding collect_old
  handle_request_old_seq msg n = if not (n.view == n.node_id) then ok (n, []) else (do
    n' ← ihm.handle_reqest_for_old_seq msg n
    ok (
      n',
      send_old
            (record {
              seq_start_height = msg.seq_start_height;
              seq_end_height = msg.seq_end_height;
              old_request =
                  collect_old (suc msg.seq_end_height - msg.seq_start_height) msg.seq_start_height
                    n;
              sender_node = n.running_node;
            })
            msg.sender_node.ip_addr
          ∷ [],
    ))

  -- `for idx, r := range som.OldRequest`
  unfoldable pub store_old : (height : ℕ) → List Request → HotstuffNode C → HotstuffNode C
  store_old height [] n = n
  store_old height (r ∷ rs) n = store_old (add_u64 height 1) rs (record n {
    request_pool = GoMap.insert (get_digest r) r n.request_pool;
    height_to_digest = GoMap.insert height (get_digest r) n.height_to_digest;
    is_reply = GoMap.insert (get_digest r) true n.is_reply;
  })

  unfoldable pub release_ask : HotstuffNode C → Reply
  release_ask n = if n.ask_for_lock then ok (record n { ask_for_lock = false }, []) else panic

  unfoldable pub handle_send_old_seq : SendOldMessage → HotstuffNode C → Reply
  unfolding store_old release_ask
  handle_send_old_seq msg n = do
    n' ← ihm.handle_for_sequential_request msg n
    release_ask (record (store_old msg.seq_start_height msg.old_request n') {
      sequence_id = add_u64 msg.seq_end_height 1;
    })

  -- `handleMessage`, for the messages of the protocol.
  unfoldable pub handle_message : HotstuffMsg → HotstuffNode C → Reply
  unfolding handle_propose handle_vote handle_request_old_seq handle_send_old_seq
  handle_message (propose_msg msg) n = handle_propose msg n
  handle_message (vote_msg msg) n = handle_vote msg n
  handle_message (request_old_seq msg) n = handle_request_old_seq msg n
  handle_message (send_old_seq msg) n = handle_send_old_seq msg n

  -- `handleClientRequest` takes `tcpPoolLock` for each message.
  unfoldable pub receive : HotstuffMsg → HotstuffNode C → Reply
  unfolding handle_message
  receive msg n = if n.tcp_pool_lock then ok (n, []) else handle_message msg n

  -- The timer ends, if there is one.
  unfoldable pub expire : ℕ → HotstuffNode C → Reply
  unfolding wait_to_commit
  expire i n = elim (get_elem? n.timers i) [
    | none ↦ ok (n, [])
    | some msg ↦ wait_to_commit msg (record n { timers = remove i n.timers })
  ]

  unfoldable pub step : HotstuffEvent → HotstuffNode C → Reply
  unfolding propose receive expire
  step proposes n = propose n
  step (receives msg) n = receive msg n
  step (expires i) n = expire i n

  -- A run of events that neither panics nor blocks, and all that the node did.
  unfoldable pub run : List HotstuffEvent → HotstuffNode C → Reply
  unfolding step
  run [] n = ok (n, [])
  run (e ∷ es) n = do (n₁, out) ← step e n; (n₂, outs) ← run es n₁; ok (n₂, out ++ outs)
