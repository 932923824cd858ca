-- ===== src/Pbft/Pool.antt =====
-- consensus_shard/pbft_all: the request pool of a node, whose keys are the digests of its requests.
use utxo_block_emulator.Base.{
  ℕ, List, [], ◌∷◌, Bool, true, false, some, ◌≡◌, refl, sym, subst, Bytes, bytes_eq, nat_eq, ◌==◌,
  ltb, arith, eq_iff, Bool-cases, Option-cases, inl, inr, add_u64,
}
use utxo_block_emulator.Base.GoMap
use utxo_block_emulator.Base.GoMap.{GoMap, lookup-insert}
use utxo_block_emulator.Base.Outcome.{
  Outcome, ok, Ensures, done, panics, blocks, Ensures-bind, Ensures-eq, Ensures-of, Ensures-if,
}
use utxo_block_emulator.Message.{
  Request, PrePrepare, Prepare, Commit, RequestOldMessage, SendOldMessage,
}
use utxo_block_emulator.Pbft.{
  Node, Sent, InsideMod, pre_prepare, prepare, commit, request_old_seq, send_old_seq, Event,
  proposes, receives, set_2d_map, decoded,
}
use utxo_block_emulator.Pbft.Handlers.{
  propose, propose_with, handle_pre_prepare, try_commit, accept_prepare, handle_prepare,
  fall_behind, execute, release_sequence, reply_to, handle_commit, handle_request_old_seq,
  handle_send_old_seq, store_old, prepare_pending, pending, pre_prepare_of, release_ask,
  handle_message, step, run,
}
use utxo_block_emulator.Pbft.Frame.{IsFramed}

module _ {C X : Type 0} (get_digest : Request → Bytes) (ihm : InsideMod C X)
    (framed : IsFramed ihm) where
  abbrev Sound : GoMap Bytes Request → Type 0
  Sound m = (d : Bytes) (r : Request) → GoMap.lookup d m ≡ some r → get_digest r ≡ d

  -- The node of a result has a sound pool.
  abbrev Keeps : Outcome (Node C × List (Sent X)) → Type 0
  Keeps m = Ensures (λ r. Sound r.0.request_pool) m

  Sound-insert :
      (k : Bytes) (q : Request) (m : GoMap Bytes Request)
      → get_digest q ≡ k
      → Sound m
      → Sound (GoMap.insert k q m)
  Sound-insert k q m e h d r found = elim (Bool-cases (k == d)) [
    | inl same ↦ grind (arith, lookup-insert k d q m, eq_iff k d)
    | inr other ↦ h d r (grind (arith, lookup-insert k d q m))
  ]

  -- A module that stores the request of a pre-prepare stores it under its digest.
  in_pre_prepare-Sound :
      (msg : PrePrepare) (n n' : Node C) (b : Bool)
      → get_digest msg.request_msg ≡ msg.digest
      → ihm.handle_in_pre_prepare msg n ≡ ok (n', b)
      → Sound n.request_pool
      → Sound n'.request_pool
  in_pre_prepare-Sound msg n n' true e f h =
      subst Sound (sym (framed.in_pre_prepare_pool msg n n' true f))
        (Sound-insert msg.digest msg.request_msg n.request_pool e h)
  in_pre_prepare-Sound msg n n' false e f h =
      subst Sound (sym (framed.in_pre_prepare_pool msg n n' false f)) h

  propose-Keeps : (n : Node C) → Sound n.request_pool → Keeps (propose get_digest ihm n)
  unfolding propose propose_with
  propose-Keeps n h = Ensures-if n.sequence_lock _ _ blocks (
      Ensures-bind (ihm.handle_in_propose _) _
        (Ensures-of (ihm.handle_in_propose _)
          (λ a f. subst Sound (sym (framed.in_propose _ a.0 a.1 f).request_pool) h))
        (λ a k. done (Sound-insert (get_digest a.1) a.1 a.0.request_pool refl k)))

  handle_pre_prepare-Keeps :
      (msg : PrePrepare) (n : Node C)
      → Sound n.request_pool
      → Keeps (handle_pre_prepare get_digest ihm msg n)
  unfolding handle_pre_prepare
  handle_pre_prepare-Keeps msg n h = elim (Bool-cases (get_digest msg.request_msg == msg.digest)) [
    | inr e ↦ rw (e, handle_pre_prepare) (done h)
    | inl e ↦
        rw (e, handle_pre_prepare)
          (Ensures-if (ltb n.sequence_id msg.seq_id) _ _
            (done (Sound-insert (get_digest msg.request_msg) msg.request_msg n.request_pool refl h))
            (Ensures-bind (ihm.handle_in_pre_prepare msg n) _
              (Ensures-of (ihm.handle_in_pre_prepare msg n) (λ a f.
                in_pre_prepare-Sound msg n a.0 a.1
                  ((eq_iff (get_digest msg.request_msg) msg.digest).0 e) f h))
              (λ a k. done (
                Sound-insert (get_digest msg.request_msg) msg.request_msg a.0.request_pool refl
                  k))))
  ]

  try_commit-pool :
      (msg : Prepare) (n : Node C)
      → (try_commit get_digest ihm msg n).0.request_pool ≡ n.request_pool
  unfolding try_commit
  try_commit-pool msg n = ground arith

  accept_prepare-Keeps :
      (msg : Prepare) (ptr : ℕ) (n : Node C)
      → Sound n.request_pool
      → Keeps (accept_prepare get_digest ihm msg ptr n)
  unfolding accept_prepare set_2d_map
  accept_prepare-Keeps msg ptr n h = Ensures-if (ltb n.sequence_id msg.seq_id) _ _ (done h) (
      Ensures-bind (ihm.handle_in_prepare msg n) _
        (Ensures-of (ihm.handle_in_prepare msg n)
          (λ a f. subst Sound (sym (framed.in_prepare msg n a f).request_pool) h))
        (λ a k.
          done (subst Sound (sym (try_commit-pool msg (set_2d_map true msg.digest ptr a))) k)))

  handle_prepare-Keeps :
      (msg : Prepare) (n : Node C)
      → Sound n.request_pool
      → Keeps (handle_prepare get_digest ihm msg n)
  unfolding handle_prepare
  handle_prepare-Keeps msg n h = elim (Option-cases (GoMap.lookup msg.digest n.request_pool)) [
    | inl e ↦ rw (e, handle_prepare) (done h)
    | inr (r, e) ↦ rw (e, handle_prepare) (accept_prepare-Keeps msg n.next_ptr (decoded n) h)
  ]

  fall_behind-Keeps :
      (msg : Commit) (n : Node C) → Sound n.request_pool → Keeps (fall_behind get_digest ihm msg n)
  unfolding fall_behind
  fall_behind-Keeps msg n h = Ensures-if n.ask_for_lock _ _ blocks (done h)

  execute-Keeps :
      (msg : Commit) (n : Node C) → Sound n.request_pool → Keeps (execute get_digest ihm msg n)
  unfolding execute
  execute-Keeps msg n h =
      Ensures-bind (ihm.handle_in_commit msg n) _
        (Ensures-of (ihm.handle_in_commit msg n)
          (λ a f. subst Sound (sym (framed.in_commit msg n a.0 a.1 f).request_pool) h))
        (λ a k. done k)

  release_sequence-Keeps :
      (r : Node C × List (Sent X))
      → Sound r.0.request_pool
      → Keeps (release_sequence get_digest ihm r)
  unfolding release_sequence
  release_sequence-Keeps (n, out) h =
      Ensures-if (n.node_id == n.view) _ _ (Ensures-if n.sequence_lock _ _ (done h) panics) (done h)

  reply_to-Keeps :
      (msg : Commit) (n : Node C) → Sound n.request_pool → Keeps (reply_to get_digest ihm msg n)
  unfolding reply_to
  reply_to-Keeps msg n h = elim (Option-cases (GoMap.lookup msg.digest n.request_pool)) [
    | inl e ↦
        rw (e, reply_to)
          (Ensures-bind (fall_behind get_digest ihm msg n) (release_sequence get_digest ihm)
            (fall_behind-Keeps msg n h) release_sequence-Keeps)
    | inr (r, e) ↦
        rw (e, reply_to)
          (Ensures-bind (execute get_digest ihm msg n) (release_sequence get_digest ihm)
            (execute-Keeps msg n h) release_sequence-Keeps)
  ]

  handle_commit-Keeps :
      (msg : Commit) (n : Node C)
      → Sound n.request_pool
      → Keeps (handle_commit get_digest ihm msg n)
  unfolding handle_commit set_2d_map
  handle_commit-Keeps msg n h =
      Ensures-if _ _ _ (reply_to-Keeps msg (set_2d_map false msg.digest n.next_ptr (decoded n)) h)
        (done h)

  handle_request_old_seq-Keeps :
      (msg : RequestOldMessage) (n : Node C)
      → Sound n.request_pool
      → Keeps (handle_request_old_seq get_digest ihm msg n)
  unfolding handle_request_old_seq
  handle_request_old_seq-Keeps msg n h =
      Ensures-if (n.view == n.node_id) _ _
        (Ensures-bind (ihm.handle_reqest_for_old_seq msg (decoded n)) _
          (Ensures-of (ihm.handle_reqest_for_old_seq msg (decoded n))
            (λ a f. subst Sound (sym (framed.for_old_seq msg (decoded n) a f).request_pool) h))
          (λ a k. done k))
        (done h)

  store_old-Sound :
      (height : ℕ) (rs : List Request) (n : Node C)
      → Sound n.request_pool
      → Sound (store_old get_digest ihm height rs n).request_pool
  unfolding store_old
  store_old-Sound height [] n h = h
  store_old-Sound height (r ∷ rs) n h =
      store_old-Sound (add_u64 height 1) rs _ (Sound-insert (get_digest r) r n.request_pool refl h)

  prepare_pending-Keeps :
      (n : Node C) → Sound n.request_pool → Keeps (prepare_pending get_digest ihm n)
  unfolding prepare_pending
  prepare_pending-Keeps n h = elim (Option-cases (pending get_digest ihm n)) [
    | inl e ↦ rw (e, prepare_pending) (done h)
    | inr (r, e) ↦
        rw (e, prepare_pending)
          (Ensures-bind (ihm.handle_in_pre_prepare (pre_prepare_of get_digest ihm r n) n) _
            (Ensures-of (ihm.handle_in_pre_prepare (pre_prepare_of get_digest ihm r n) n)
              (λ a f. in_pre_prepare-Sound (pre_prepare_of get_digest ihm r n) n a.0 a.1 refl f h))
            (λ a k. done k))
  ]

  release_ask-Keeps :
      (r : Node C × List (Sent X)) → Sound r.0.request_pool → Keeps (release_ask get_digest ihm r)
  unfolding release_ask
  release_ask-Keeps (n, out) h = Ensures-if n.ask_for_lock _ _ (done h) panics

  handle_send_old_seq-Keeps :
      (msg : SendOldMessage) (n : Node C)
      → Sound n.request_pool
      → Keeps (handle_send_old_seq get_digest ihm msg n)
  unfolding handle_send_old_seq
  handle_send_old_seq-Keeps msg n h =
      Ensures-bind (ihm.handle_for_sequential_request msg (decoded n)) _
        (Ensures-of (ihm.handle_for_sequential_request msg (decoded n))
          (λ a f. subst Sound (sym (framed.sequential msg (decoded n) a f).1) h))
        (λ a k.
          Ensures-bind (prepare_pending get_digest ihm _) (release_ask get_digest ihm)
            (prepare_pending-Keeps _ (store_old-Sound msg.seq_start_height msg.old_request a k))
            release_ask-Keeps)

  step-Keeps : (e : Event) (n : Node C) → Sound n.request_pool → Keeps (step get_digest ihm e n)
  unfolding step handle_message
  step-Keeps proposes n h = propose-Keeps n h
  step-Keeps (receives (pre_prepare msg)) n h = handle_pre_prepare-Keeps msg n h
  step-Keeps (receives (prepare msg)) n h = handle_prepare-Keeps msg n h
  step-Keeps (receives (commit msg)) n h = handle_commit-Keeps msg n h
  step-Keeps (receives (request_old_seq msg)) n h = handle_request_old_seq-Keeps msg n h
  step-Keeps (receives (send_old_seq msg)) n h = handle_send_old_seq-Keeps msg n h

  run-Keeps :
      (es : List Event) (n : Node C) → Sound n.request_pool → Keeps (run get_digest ihm es n)
  unfolding run
  run-Keeps [] n h = done h
  run-Keeps (e ∷ es) n h =
      Ensures-bind (step get_digest ihm e n) _ (step-Keeps e n h)
        (λ a k. Ensures-bind (run get_digest ihm es a.0) _ (run-Keeps es a.0 k) (λ b l. done l))

  -- If every request of a node's pool is stored under its own digest, then after any run of messages
  -- and proposals, with extra modules that keep to their frame, every request in the pool is still
  -- stored under its own digest, also those that came in pre-prepares and in answers to a request for
  -- old blocks.
  pub run-keeps_digests :
      (es : List Event) (n n' : Node C) (out : List (Sent X))
      → ((d : Bytes) (r : Request) → GoMap.lookup d n.request_pool ≡ some r → get_digest r ≡ d)
      → run get_digest ihm es n ≡ ok (n', out)
      → (d : Bytes) (r : Request) → GoMap.lookup d n'.request_pool ≡ some r
      → get_digest r ≡ d
  run-keeps_digests es n n' out h e = Ensures-eq (run-Keeps es n h) e
