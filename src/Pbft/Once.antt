-- ===== src/Pbft/Once.antt =====
-- consensus_shard/pbft_all: a node broadcasts a commit for a digest once at most.
pub mod Commits
use utxo_block_emulator.Base.{
  add_u64, ℕ, ◌+◌, ◌≤◌, List, [], ◌∷◌, ◌++◌, Bool, true, false, ◌≡◌, refl, sym, ap, ◌∙◌, Bytes,
  bytes_eq, nat_eq, ◌==◌, if◌then◌else◌, ltb, arith, eq_iff, Option-cases, inl, inr,
}
use utxo_block_emulator.Base.GoMap
use utxo_block_emulator.Base.GoMap.{GoMap, lookup-insert}
use utxo_block_emulator.Base.Outcome.{
  Outcome, ok, Ensures, done, panics, blocks, Ensures-bind, Ensures-eq, Ensures-of, Ensures-if,
}
use utxo_block_emulator.Message.{
  Request, PrePrepare, Prepare, Commit, RequestOldMessage, SendOldMessage,
}
use utxo_block_emulator.Pbft.{
  Node, Sent, broadcast_pre_prepare, broadcast_prepare, broadcast_commit, request_old, send_old,
  extra, InsideMod, pre_prepare, prepare, commit, request_old_seq, send_old_seq, Event, proposes,
  receives, set_2d_map, decoded,
}
use utxo_block_emulator.Pbft.Handlers.{
  propose, propose_with, handle_pre_prepare, try_commit, accept_prepare, handle_prepare,
  fall_behind, extras, execute, release_sequence, reply_to, handle_commit, handle_request_old_seq,
  handle_send_old_seq, store_old, prepare_pending, prepare_if, pending, pre_prepare_of, release_ask,
  handle_message, step, run,
}
use utxo_block_emulator.Pbft.Frame.{IsFramed}
pub use utxo_block_emulator.Pbft.Once.Commits.{
  commits, flag, Bounded, flag-of, commits-extras, commits-append, quiet,
}

module _ {C X : Type 0} (get_digest : Request → Bytes) (ihm : InsideMod C X) (framed : IsFramed ihm)
    (d : Bytes) where
  -- The result of a handler on a node satisfies the bound.
  abbrev Keeps : Node C → Outcome (Node C × List (Sent X)) → Type 0
  Keeps n m = Ensures (Bounded d n) m

  silent :
      (n n' : Node C) (out : List (Sent X))
      → commits d out ≡ 0
      → n'.is_commit_bordcast ≡ n.is_commit_bordcast
      → Keeps n (ok (n', out))
  silent n n' out z e = done (quiet d n n' out z e)

  propose-Keeps : (n : Node C) → Keeps n (propose get_digest ihm n)
  unfolding propose propose_with
  propose-Keeps n = Ensures-if n.sequence_lock _ _ blocks (
      Ensures-bind (ihm.handle_in_propose _) _
        (Ensures-of (ihm.handle_in_propose _)
          (λ a f. (framed.in_propose _ a.0 a.1 f).votes.is_commit_bordcast))
        (λ a k. silent n _ _ refl k))

  commits-prepare_if :
      (b : Bool) (msg : PrePrepare) (n : Node C) → commits d (prepare_if get_digest ihm b msg n) ≡ 0
  commits-prepare_if true msg n = refl
  commits-prepare_if false msg n = refl

  handle_pre_prepare-Keeps :
      (msg : PrePrepare) (n : Node C) → Keeps n (handle_pre_prepare get_digest ihm msg n)
  unfolding handle_pre_prepare
  handle_pre_prepare-Keeps msg n = Ensures-if _ _ _ (silent n n [] refl refl) (
      Ensures-if (ltb n.sequence_id msg.seq_id) _ _ (silent n _ [] refl refl) (
        Ensures-bind (ihm.handle_in_pre_prepare msg n) _
          (Ensures-of (ihm.handle_in_pre_prepare msg n)
            (λ a f. (framed.in_pre_prepare msg n a.0 a.1 f).0.is_commit_bordcast))
          (λ a k. silent n _ _ (commits-prepare_if a.1 msg a.0) k)))

  try_commit-Bounded : (msg : Prepare) (n : Node C) → Bounded d n (try_commit get_digest ihm msg n)
  unfolding try_commit GoMap.get_or
  try_commit-Bounded msg n =
      ground (arith, lookup-insert msg.digest d true n.is_commit_bordcast, eq_iff msg.digest d)

  accept_prepare-Keeps :
      (msg : Prepare) (ptr : ℕ) (n : Node C) → Keeps n (accept_prepare get_digest ihm msg ptr n)
  unfolding accept_prepare set_2d_map
  accept_prepare-Keeps msg ptr n =
      Ensures-if (ltb n.sequence_id msg.seq_id) _ _ (silent n n [] refl refl) (
        Ensures-bind (ihm.handle_in_prepare msg n) _
          (Ensures-of (ihm.handle_in_prepare msg n)
            (λ a f. (framed.in_prepare msg n a f).votes.is_commit_bordcast))
          (λ a k. done (
            omega (
              arith,
              try_commit-Bounded msg (set_2d_map true msg.digest ptr a),
              flag-of d n (set_2d_map true msg.digest ptr a) k,
            ))))

  handle_prepare-Keeps :
      (msg : Prepare) (n : Node C) → Keeps n (handle_prepare get_digest ihm msg n)
  unfolding handle_prepare
  handle_prepare-Keeps msg n = elim (Option-cases (GoMap.lookup msg.digest n.request_pool)) [
    | inl e ↦ rw (e, handle_prepare) (silent n _ [] refl refl)
    | inr (r, e) ↦ rw (e, handle_prepare) (accept_prepare-Keeps msg n.next_ptr (decoded n))
  ]

  release_sequence-Keeps :
      (n : Node C) (r : Node C × List (Sent X))
      → Bounded d n r
      → Keeps n (release_sequence get_digest ihm r)
  unfolding release_sequence
  release_sequence-Keeps n (n', out) h =
      Ensures-if (n'.node_id == n'.view) _ _ (Ensures-if n'.sequence_lock _ _ (done h) panics)
        (done h)

  fall_behind-Keeps : (msg : Commit) (n : Node C) → Keeps n (fall_behind get_digest ihm msg n)
  unfolding fall_behind
  fall_behind-Keeps msg n = Ensures-if n.ask_for_lock _ _ blocks (silent n _ _ refl refl)

  execute-Keeps : (msg : Commit) (n : Node C) → Keeps n (execute get_digest ihm msg n)
  unfolding execute
  execute-Keeps msg n =
      Ensures-bind (ihm.handle_in_commit msg n) _
        (Ensures-of (ihm.handle_in_commit msg n)
          (λ a f. (framed.in_commit msg n a.0 a.1 f).votes.is_commit_bordcast))
        (λ a k. silent n _ _ (commits-extras d a.1) k)

  reply_to-Keeps : (msg : Commit) (n : Node C) → Keeps n (reply_to get_digest ihm msg n)
  unfolding reply_to
  reply_to-Keeps msg n = elim (Option-cases (GoMap.lookup msg.digest n.request_pool)) [
    | inl e ↦
        rw (e, reply_to)
          (Ensures-bind (fall_behind get_digest ihm msg n) (release_sequence get_digest ihm)
            (fall_behind-Keeps msg n) (release_sequence-Keeps n))
    | inr (r, e) ↦
        rw (e, reply_to)
          (Ensures-bind (execute get_digest ihm msg n) (release_sequence get_digest ihm)
            (execute-Keeps msg n) (release_sequence-Keeps n))
  ]

  handle_commit-Keeps : (msg : Commit) (n : Node C) → Keeps n (handle_commit get_digest ihm msg n)
  unfolding handle_commit set_2d_map
  handle_commit-Keeps msg n =
      Ensures-if _ _ _ (reply_to-Keeps msg (set_2d_map false msg.digest n.next_ptr (decoded n)))
        (silent n _ [] refl refl)

  handle_request_old_seq-Keeps :
      (msg : RequestOldMessage) (n : Node C) → Keeps n (handle_request_old_seq get_digest ihm msg n)
  unfolding handle_request_old_seq
  handle_request_old_seq-Keeps msg n =
      Ensures-if (n.view == n.node_id) _ _
        (Ensures-bind (ihm.handle_reqest_for_old_seq msg (decoded n)) _
          (Ensures-of (ihm.handle_reqest_for_old_seq msg (decoded n))
            (λ a f. (framed.for_old_seq msg (decoded n) a f).votes.is_commit_bordcast))
          (λ a k. silent n a _ refl k))
        (silent n n [] refl refl)

  store_old-bordcast :
      (height : ℕ) (rs : List Request) (n : Node C)
      → (store_old get_digest ihm height rs n).is_commit_bordcast ≡ n.is_commit_bordcast
  unfolding store_old
  store_old-bordcast height [] n = refl
  store_old-bordcast height (r ∷ rs) n = store_old-bordcast (add_u64 height 1) rs _

  prepare_pending-Keeps : (n : Node C) → Keeps n (prepare_pending get_digest ihm n)
  unfolding prepare_pending
  prepare_pending-Keeps n = elim (Option-cases (pending get_digest ihm n)) [
    | inl e ↦ rw (e, prepare_pending) (silent n n [] refl refl)
    | inr (r, e) ↦
        rw (e, prepare_pending)
          (Ensures-bind (ihm.handle_in_pre_prepare (pre_prepare_of get_digest ihm r n) n) _
            (Ensures-of (ihm.handle_in_pre_prepare (pre_prepare_of get_digest ihm r n) n)
              (λ a f. (framed.in_pre_prepare _ n a.0 a.1 f).0.is_commit_bordcast))
            (λ a k.
              silent n a.0 _ (commits-prepare_if a.1 (pre_prepare_of get_digest ihm r n) a.0) k))
  ]

  release_ask-Keeps :
      (n : Node C) (r : Node C × List (Sent X))
      → Bounded d n r
      → Keeps n (release_ask get_digest ihm r)
  unfolding release_ask
  release_ask-Keeps n (n', out) h = Ensures-if n'.ask_for_lock _ _ (done h) panics

  handle_send_old_seq-Keeps :
      (msg : SendOldMessage) (n : Node C) → Keeps n (handle_send_old_seq get_digest ihm msg n)
  unfolding handle_send_old_seq
  handle_send_old_seq-Keeps msg n =
      Ensures-bind (ihm.handle_for_sequential_request msg (decoded n)) _
        (Ensures-of (ihm.handle_for_sequential_request msg (decoded n))
          (λ a f. (framed.sequential msg (decoded n) a f).0.is_commit_bordcast))
        (λ a k.
          Ensures-bind (prepare_pending get_digest ihm (caught_up a)) (release_ask get_digest ihm)
            (prepare_pending-Keeps (caught_up a))
            (λ r h. release_ask-Keeps n r (
              omega (
                arith,
                h,
                flag-of d n (caught_up a)
                    (store_old-bordcast msg.seq_start_height msg.old_request a ∙ k),
              ))))
    where
      caught_up : Node C → Node C
      caught_up a = record (store_old get_digest ihm msg.seq_start_height msg.old_request a) {
        sequence_id = add_u64 msg.seq_end_height 1;
      }

  step-Keeps : (e : Event) (n : Node C) → Keeps n (step get_digest ihm e n)
  unfolding step handle_message
  step-Keeps proposes n = propose-Keeps n
  step-Keeps (receives (pre_prepare msg)) n = handle_pre_prepare-Keeps msg n
  step-Keeps (receives (prepare msg)) n = handle_prepare-Keeps msg n
  step-Keeps (receives (commit msg)) n = handle_commit-Keeps msg n
  step-Keeps (receives (request_old_seq msg)) n = handle_request_old_seq-Keeps msg n
  step-Keeps (receives (send_old_seq msg)) n = handle_send_old_seq-Keeps msg n

  run-Keeps : (es : List Event) (n : Node C) → Keeps n (run get_digest ihm es n)
  unfolding run
  run-Keeps [] n = silent n n [] refl refl
  run-Keeps (e ∷ es) n = Ensures-bind (step get_digest ihm e n) _ (step-Keeps e n) (λ a h.
      Ensures-bind (run get_digest ihm es a.0) _ (run-Keeps es a.0)
        (λ b k. done (omega (arith, commits-append d a.1 b.1, h, k))))

  -- Whatever messages a node receives and proposals it makes, with extra modules that keep to their
  -- frame: it broadcasts at most one commit for a digest.
  pub run-commits_once :
      (es : List Event) (n n' : Node C) (out : List (Sent X))
      → run get_digest ihm es n ≡ ok (n', out)
      → commits d out ≤ 1
  run-commits_once es n n' out h = ground (arith, Ensures-eq (run-Keeps es n) h)
