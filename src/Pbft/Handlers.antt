-- ===== src/Pbft/Handlers.antt =====
-- consensus_shard/pbft_all/messageHandle.go: `Propose` (one round) and the message handlers.
use utxo_block_emulator.Base.{
  ℕ, zero, suc, ◌-◌, ◌*◌, List, [], ◌∷◌, ◌++◌, Bool, true, false, not, ◌&&◌, Option, none, some,
  Bytes, bytes_eq, nat_eq, ◌==◌, if◌then◌else◌, ltb, leb, add_u64,
}
use utxo_block_emulator.Base.GoMap
use utxo_block_emulator.Base.GoMap.{GoMap}
use utxo_block_emulator.Base.Outcome.{Outcome, ok, panic, blocked, ◌>>=◌}
use utxo_block_emulator.Message.{
  ShardNode, Request, PrePrepare, Prepare, Commit, RequestOldMessage, SendOldMessage,
}
use utxo_block_emulator.Pbft.{
  Node, Sent, broadcast_pre_prepare, broadcast_prepare, broadcast_commit, request_old, send_old,
  extra, InsideMod, Msg, pre_prepare, prepare, commit, request_old_seq, send_old_seq, Event,
  proposes, receives, set_2d_map, count, decoded,
}

abbrev pub extras : {X : Type 0} → List X → List (Sent X)
extras [] = []
extras (x ∷ xs) = extra x ∷ extras xs

-- `get_digest` is SHA-256 of the JSON of a request.
module _ {C X : Type 0} (get_digest : Request → Bytes) (ihm : InsideMod C X) where
  abbrev pub Reply : Type 0
  Reply = Outcome (Node C × List (Sent X))

  -- One round of `Propose`, from the lock that it takes. A lock that is held keeps it waiting.
  unfoldable pub propose_with : Node C → Request → Node C × List (Sent X)
  propose_with n r =
      let digest = get_digest r in
      let pp : PrePrepare = record { request_msg = r; digest = digest; seq_id = n.sequence_id } in
      (
        record n {
          request_pool = GoMap.insert digest r n.request_pool;
          height_to_digest = GoMap.insert n.sequence_id digest n.height_to_digest;
        },
        broadcast_pre_prepare pp ∷ [],
      )

  unfoldable pub propose : Node C → Reply
  unfolding propose_with
  propose n = if n.sequence_lock then blocked else (do
    (n', r) ← ihm.handle_in_propose (record n { sequence_lock = true })
    ok (propose_with n' r))

  -- The request is stored under its digest, and the digest under the height.
  abbrev pub store_request : PrePrepare → Node C → Node C
  store_request msg n = record n {
    request_pool = GoMap.insert (get_digest msg.request_msg) msg.request_msg n.request_pool;
    height_to_digest = GoMap.insert msg.seq_id (get_digest msg.request_msg) n.height_to_digest;
  }

  abbrev pub prepare_of : PrePrepare → Node C → Prepare
  prepare_of msg n = record {
    digest = msg.digest;
    seq_id = msg.seq_id;
    sender_node = n.running_node;
  }

  abbrev pub prepare_if : Bool → PrePrepare → Node C → List (Sent X)
  prepare_if flag msg n = if flag then broadcast_prepare (prepare_of msg n) ∷ [] else []

  unfoldable pub handle_pre_prepare : PrePrepare → Node C → Reply
  handle_pre_prepare msg n =
      if not (get_digest msg.request_msg == msg.digest)
      then ok (n, [])
      else if ltb n.sequence_id msg.seq_id
      then ok (store_request msg n, [])
      else (do
        (n', flag) ← ihm.handle_in_pre_prepare msg n
        ok (store_request msg n', prepare_if flag msg n'))

  -- 2f messages, one less for a node that is not the main node.
  abbrev pub specified_cnt : Node C → ℕ
  specified_cnt n = if n.node_id == n.view then 2 * n.malicious_nums else 2 * n.malicious_nums - 1

  abbrev pub commit_of : Prepare → Node C → Commit
  commit_of msg n = record {
    digest = msg.digest;
    seq_id = msg.seq_id;
    sender_node = n.running_node;
  }

  unfoldable pub try_commit : Prepare → Node C → Node C × List (Sent X)
  try_commit msg n =
      if leb (specified_cnt n) (count msg.digest n.cnt_prepare_confirm)
        && not (GoMap.get_or msg.digest false n.is_commit_bordcast)
      then (
        record n { is_commit_bordcast = GoMap.insert msg.digest true n.is_commit_bordcast },
        broadcast_commit (commit_of msg n) ∷ [],
      )
      else (n, [])

  unfoldable pub accept_prepare : Prepare → ℕ → Node C → Reply
  unfolding try_commit
  accept_prepare msg ptr n = if ltb n.sequence_id msg.seq_id then ok (n, []) else (do
    n' ← ihm.handle_in_prepare msg n
    ok (try_commit msg (set_2d_map true msg.digest ptr n')))

  unfoldable pub handle_prepare : Prepare → Node C → Reply
  unfolding accept_prepare
  handle_prepare msg n = elim (GoMap.lookup msg.digest n.request_pool) [
    | none ↦ ok (decoded n, [])
    | some _ ↦ accept_prepare msg n.next_ptr (decoded n)
  ]

  abbrev pub main_node : Node C → ShardNode
  main_node n = record {
    node_id = n.view;
    shard_id = n.shard_id;
    ip_addr = GoMap.get_or n.view [] (GoMap.get_or n.shard_id [] n.ip_node_table);
  }

  abbrev pub old_request_of : Commit → Node C → RequestOldMessage
  old_request_of msg n = record {
    seq_start_height = add_u64 n.sequence_id 1;
    seq_end_height = msg.seq_id;
    server_node = main_node n;
    sender_node = n.running_node;
  }

  -- The node is left behind: it marks the digest as done and asks the main node for the blocks.
  unfoldable pub fall_behind : Commit → Node C → Reply
  fall_behind msg n =
      if n.ask_for_lock
      then blocked
      else ok (
        record n { is_reply = GoMap.insert msg.digest true n.is_reply; ask_for_lock = true },
        request_old (old_request_of msg n) (main_node n).ip_addr ∷ [],
      )

  unfoldable pub execute : Commit → Node C → Reply
  execute msg n = do
    (n', xs) ← ihm.handle_in_commit msg n
    ok (
      record n' {
        is_reply = GoMap.insert msg.digest true n'.is_reply;
        sequence_id = add_u64 n'.sequence_id 1;
      },
      extras xs,
    )

  -- The main node releases the lock that `Propose` took; an unlock of an unlocked mutex is fatal.
  unfoldable pub release_sequence : Node C × List (Sent X) → Reply
  release_sequence (n, out) =
      if n.node_id == n.view
      then (if n.sequence_lock then ok (record n { sequence_lock = false }, out) else panic)
      else ok (n, out)

  unfoldable pub reply_to : Commit → Node C → Reply
  unfolding fall_behind execute release_sequence
  reply_to msg n = do
    r ← elim (GoMap.lookup msg.digest n.request_pool) [
      | none ↦ fall_behind msg n
      | some _ ↦ execute msg n
    ]
    release_sequence r

  unfoldable pub handle_commit : Commit → Node C → Reply
  unfolding reply_to
  handle_commit msg n =
      let n' = set_2d_map false msg.digest n.next_ptr (decoded n) in
      if leb (2 * n.malicious_nums) (count msg.digest n'.cnt_commit_confirm)
        && not (GoMap.get_or msg.digest false n'.is_reply)
      then reply_to msg n'
      else ok (n', [])

  -- `for height := start; height <= end; height++` with its two breaks; `rounds` is end + 1 - start, for
  -- an end below 2^64 - 1.
  unfoldable pub collect_old : (rounds height : ℕ) → Node C → List Request
  collect_old zero height n = []
  collect_old (suc rounds) height n =
      let rest = collect_old rounds (suc height) n in
      elim (GoMap.lookup height n.height_to_digest) [
        | none ↦ []
        | some digest ↦ elim (GoMap.lookup digest n.request_pool) [ none ↦ [] | some r ↦ r ∷ rest ]
      ]

  unfoldable pub handle_request_old_seq : RequestOldMessage → Node C → Reply
  unfolding collect_old
  handle_request_old_seq msg n =
      if n.view == n.node_id
      then (do
        n' ← ihm.handle_reqest_for_old_seq msg (decoded n)
        ok (
          n',
          send_old
                (record {
                  seq_start_height = msg.seq_start_height;
                  seq_end_height = msg.seq_end_height;
                  old_request =
                      collect_old (suc msg.seq_end_height - msg.seq_start_height)
                        msg.seq_start_height n;
                  sender_node = n.running_node;
                })
                msg.sender_node.ip_addr
              ∷ [],
        ))
      else ok (n, [])

  -- `for idx, r := range som.OldRequest`
  unfoldable pub store_old : (height : ℕ) → List Request → Node C → Node C
  store_old height [] n = n
  store_old height (r ∷ rs) n = store_old (add_u64 height 1) rs (record n {
    request_pool = GoMap.insert (get_digest r) r n.request_pool;
    height_to_digest = GoMap.insert height (get_digest r) n.height_to_digest;
    is_reply = GoMap.insert (get_digest r) true n.is_reply;
  })

  -- The request that is stored for the next height, if any, is prepared.
  abbrev pub pending : Node C → Option Request
  pending n = elim (GoMap.lookup n.sequence_id n.height_to_digest) [
    | none ↦ none
    | some digest ↦ GoMap.lookup digest n.request_pool
  ]

  abbrev pub pre_prepare_of : Request → Node C → PrePrepare
  pre_prepare_of r n = record { request_msg = r; digest = get_digest r; seq_id = n.sequence_id }

  unfoldable pub prepare_pending : Node C → Reply
  prepare_pending n = elim (pending n) [
    | none ↦ ok (n, [])
    | some r ↦ (do
      (n', flag) ← ihm.handle_in_pre_prepare (pre_prepare_of r n) n
      ok (n', prepare_if flag (pre_prepare_of r n) n'))
  ]

  unfoldable pub release_ask : Node C × List (Sent X) → Reply
  release_ask (n, out) =
      if n.ask_for_lock then ok (record n { ask_for_lock = false }, out) else panic

  unfoldable pub handle_send_old_seq : SendOldMessage → Node C → Reply
  unfolding store_old prepare_pending release_ask
  handle_send_old_seq msg n = do
    n' ← ihm.handle_for_sequential_request msg (decoded n)
    let stored = store_old msg.seq_start_height msg.old_request n'
    r ← prepare_pending (record stored { sequence_id = add_u64 msg.seq_end_height 1 })
    release_ask r

  -- `handleMessage`, for the messages of the protocol.
  unfoldable pub handle_message : Msg → Node C → Reply
  unfolding handle_pre_prepare handle_prepare handle_commit handle_request_old_seq
      handle_send_old_seq
  handle_message (pre_prepare msg) n = handle_pre_prepare msg n
  handle_message (prepare msg) n = handle_prepare msg n
  handle_message (commit msg) n = handle_commit msg n
  handle_message (request_old_seq msg) n = handle_request_old_seq msg n
  handle_message (send_old_seq msg) n = handle_send_old_seq msg n

  -- One event of a node's life: a message, or a round of `Propose`.
  unfoldable pub step : Event → Node C → Reply
  unfolding propose handle_message
  step proposes n = propose n
  step (receives m) n = handle_message m n

  -- A run of events that neither panics nor blocks, and all that the node sent.
  unfoldable pub run : List Event → Node C → Reply
  unfolding step
  run [] n = ok (n, [])
  run (e ∷ es) n = do (n₁, out) ← step e n; (n₂, outs) ← run es n₁; ok (n₂, out ++ outs)
