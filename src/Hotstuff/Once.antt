-- ===== src/Hotstuff/Once.antt =====
-- consensus_shard/synchotstuff_all: a node that is not the main node executes a proposal once at most.
pub mod Counts
use utxo_block_emulator.Base.{
  ℕ, zero, suc, ◌+◌, ◌≤◌, List, [], ◌∷◌, ◌++◌, Bool, true, false, not, Option, none, some, ◌≡◌,
  refl, sym, ap, ◌∙◌, subst, Bytes, bytes_eq, nat_eq, ◌==◌, if◌then◌else◌, ltb, arith, eq_iff,
  Option-cases, Bool-cases, inl, inr, add_u64, get_elem?,
}
use utxo_block_emulator.Base.GoMap
use utxo_block_emulator.Base.GoMap.{GoMap, lookup-insert}
use utxo_block_emulator.Base.Outcome.{
  Outcome, ok, Ensures, done, panics, blocks, Ensures-bind, Ensures-eq, Ensures-of, Ensures-if,
  Ensures-weaken,
}
use utxo_block_emulator.Message.{Request, Propose, Vote, RequestOldMessage, SendOldMessage}
use utxo_block_emulator.Hotstuff.{
  HotstuffNode, Action, broadcast_propose, broadcast_vote, request_old, send_old, executes, extra,
  HotstuffMod, HotstuffMsg, propose_msg, vote_msg, request_old_seq, send_old_seq, HotstuffEvent,
  proposes, receives, expires,
}
use utxo_block_emulator.Hotstuff.Handlers.{
  extras, remove, propose, accept_propose, handle_propose, fall_behind, execute, release_sequence,
  wait_to_commit, count_vote, vote_counted, handle_vote, handle_request_old_seq, store_old,
  release_ask, handle_send_old_seq, handle_message, receive, expire, step, run, store_request,
  vote_if, interrupt, propose_of,
}
use utxo_block_emulator.Hotstuff.Frame.{SameControl, IsFramed}
pub use utxo_block_emulator.Hotstuff.Once.Counts.{
  executions, pending, absent, budget, Bounded, executions-extras, executions-append,
  pending-append, pending-remove, absent-insert,
}

module _ {C X : Type 0} (get_digest : Request → Bytes)
    (make_request : HotstuffNode C → Outcome (HotstuffNode C × Request)) (ihm : HotstuffMod C X)
    (framed : IsFramed ihm) (d : Bytes) where
  -- A node that is not the main node, and its result.
  abbrev Keeps : HotstuffNode C → Outcome (HotstuffNode C × List (Action X)) → Type 0
  Keeps n m = Ensures (Bounded d n) m

  quiet :
      (n n' : HotstuffNode C) (out : List (Action X))
      → executions d out ≡ 0
      → budget d n' ≤ budget d n
      → n'.node_id ≡ n.node_id
      → n'.view ≡ n.view
      → Keeps n (ok (n', out))
  quiet n n' out z b i v = done (omega arith, i, v)

  same : (n : HotstuffNode C) (out : List (Action X)) → executions d out ≡ 0 → Keeps n (ok (n, out))
  same n out z = quiet n n out z (omega arith) refl refl

  budget-eq :
      (n n' : HotstuffNode C)
      → n'.timers ≡ n.timers
      → n'.request_pool ≡ n.request_pool
      → budget d n' ≡ budget d n
  budget-eq n n' t p = rw (t, p) refl

  -- A proposal that the pool did not hold takes the place of what its digest may still execute.
  budget-accept :
      (msg : Propose) (n n' : HotstuffNode C) (flag : Bool)
      → GoMap.lookup msg.digest n.request_pool ≡ none
      → get_digest msg.request_msg ≡ msg.digest
      → ihm.handle_in_propose msg n ≡ ok (n', flag)
      → budget d
          (vote_if get_digest make_request ihm flag msg
            (store_request get_digest make_request ihm msg n')).0
        ≤ budget d n
  budget-accept msg n n' true fresh e f =
      rw (e, framed.in_propose_pool msg n n' true f, (framed.in_propose msg n n' true f).timers)
        (ground (
          arith,
          eq_iff msg.digest d,
          pending-append d n.timers (msg ∷ []),
          absent-insert d msg.digest msg.request_msg n.request_pool,
          absent-insert d msg.digest msg.request_msg
              (GoMap.insert msg.digest msg.request_msg n.request_pool),
        ))
  budget-accept msg n n' false fresh e f =
      rw (e, framed.in_propose_pool msg n n' false f, (framed.in_propose msg n n' false f).timers)
        (ground (arith, absent-insert d msg.digest msg.request_msg n.request_pool))

  executions-vote_if :
      (flag : Bool) (msg : Propose) (n : HotstuffNode C)
      → executions d (vote_if get_digest make_request ihm flag msg n).1 ≡ 0
  executions-vote_if true msg n = refl
  executions-vote_if false msg n = refl

  same-vote_if :
      (flag : Bool) (msg : Propose) (n : HotstuffNode C)
      → ((vote_if get_digest make_request ihm flag msg n).0.node_id ≡ n.node_id)
        × ((vote_if get_digest make_request ihm flag msg n).0.view ≡ n.view)
  same-vote_if true msg n = (refl, refl)
  same-vote_if false msg n = (refl, refl)

  accept_propose-Keeps :
      (msg : Propose) (n : HotstuffNode C)
      → GoMap.lookup msg.digest n.request_pool ≡ none
      → Keeps n (accept_propose get_digest make_request ihm msg n)
  unfolding accept_propose
  accept_propose-Keeps msg n fresh = elim (Bool-cases (get_digest msg.request_msg == msg.digest)) [
    | inr e ↦ rw (e, accept_propose) (same n [] refl)
    | inl e ↦
        rw (e, accept_propose)
          (Ensures-bind (ihm.handle_in_propose msg n) _
            (Ensures-of
              {P = λ a.
                (budget d
                    (vote_if get_digest make_request ihm a.1 msg
                      (store_request get_digest make_request ihm msg a.0)).0
                  ≤ budget d n)
                × SameControl n a.0}
              (ihm.handle_in_propose msg n)
              (λ a f. (
                budget-accept msg n a.0 a.1 fresh
                    ((eq_iff (get_digest msg.request_msg) msg.digest).0 e) f,
                framed.in_propose msg n a.0 a.1 f,
              )))
            (λ a k.
              quiet n _ _ (executions-vote_if a.1 msg _) k.0
                ((same-vote_if a.1 msg _).0 ∙ k.1.node_id) ((same-vote_if a.1 msg _).1 ∙ k.1.view)))
  ]

  handle_propose-Keeps :
      (msg : Propose) (n : HotstuffNode C)
      → Keeps n (handle_propose get_digest make_request ihm msg n)
  unfolding handle_propose
  handle_propose-Keeps msg n = elim (Option-cases (GoMap.lookup msg.digest n.request_pool)) [
    | inl e ↦ rw (e, handle_propose) (accept_propose-Keeps msg n e)
    | inr (r, e) ↦ rw (e, handle_propose) (same n _ refl)
  ]

  propose-Keeps :
      (n : HotstuffNode C)
      → (n.view == n.node_id) ≡ false
      → Keeps n (propose get_digest make_request ihm n)
  unfolding propose
  propose-Keeps n h = rw (h, propose) (same n [] refl)

  release_sequence-Keeps :
      (n : HotstuffNode C) (r : HotstuffNode C × List (Action X))
      → Bounded d n r
      → Keeps n (release_sequence get_digest make_request ihm r)
  unfolding release_sequence
  release_sequence-Keeps n (n', out) h =
      Ensures-if (n'.node_id == n'.view) _ _ (Ensures-if n'.sequence_lock _ _ (done h) panics)
        (done h)

  -- A node whose timer for `msg` has ended.
  abbrev Spent : Propose → HotstuffNode C → HotstuffNode C × List (Action X) → Type 0
  Spent msg n r =
      (executions d r.1 + budget d r.0 ≤ (if msg.digest == d then 1 else 0) + budget d n)
      × (r.0.node_id ≡ n.node_id)
      × (r.0.view ≡ n.view)

  fall_behind-Spent :
      (msg : Propose) (n : HotstuffNode C)
      → Ensures (Spent msg n) (fall_behind get_digest make_request ihm msg n)
  unfolding fall_behind
  fall_behind-Spent msg n = Ensures-if n.ask_for_lock _ _ blocks (done (omega arith, refl, refl))

  execute-Spent :
      (msg : Propose) (n : HotstuffNode C)
      → Ensures (Spent msg n) (execute get_digest make_request ihm msg n)
  unfolding execute
  execute-Spent msg n =
      Ensures-bind (ihm.commit msg n) _
        (Ensures-of (ihm.commit msg n) (λ a f. framed.in_commit msg n a.0 a.1 f))
        (λ a k. done (
          omega (arith, executions-extras d a.1, budget-eq n a.0 k.0.timers k.1),
          k.0.node_id,
          k.0.view,
        ))

  wait_to_commit-Spent :
      (msg : Propose) (n : HotstuffNode C)
      → Ensures (Spent msg n) (wait_to_commit get_digest make_request ihm msg n)
  unfolding wait_to_commit release_sequence
  wait_to_commit-Spent msg n = elim (Option-cases (GoMap.lookup msg.digest n.request_pool)) [
    | inl e ↦
        rw (e, wait_to_commit)
          (Ensures-bind (fall_behind get_digest make_request ihm msg n) _ (fall_behind-Spent msg n)
            released)
    | inr (r, e) ↦
        rw (e, wait_to_commit)
          (Ensures-bind (execute get_digest make_request ihm msg n) _ (execute-Spent msg n)
            released)
  ]
    where
      released :
          (r : HotstuffNode C × List (Action X))
          → Spent msg n r
          → Ensures (Spent msg n) (release_sequence get_digest make_request ihm r)
      released (n', out) h =
          Ensures-if (n'.node_id == n'.view) _ _ (Ensures-if n'.sequence_lock _ _ (done h) panics)
            (done h)

  expire-Keeps : (i : ℕ) (n : HotstuffNode C) → Keeps n (expire get_digest make_request ihm i n)
  unfolding expire
  expire-Keeps i n = elim (Option-cases (get_elem? n.timers i)) [
    | inl e ↦ rw (e, expire) (same n [] refl)
    | inr (msg, e) ↦
        rw (e, expire)
          (Ensures-weaken _
            (λ r h. (omega (arith, h.0, pending-remove d i n.timers msg e), h.1, h.2))
            (wait_to_commit-Spent msg (record n { timers = remove i n.timers })))
  ]

  count_vote-same :
      (msg : Vote) (n : HotstuffNode C)
      → (budget d (count_vote get_digest make_request ihm msg n) ≡ budget d n)
        × ((count_vote get_digest make_request ihm msg n).node_id ≡ n.node_id)
        × ((count_vote get_digest make_request ihm msg n).view ≡ n.view)
  unfolding count_vote
  count_vote-same msg n = ground arith

  vote_counted-Keeps :
      (msg : Vote) (n : HotstuffNode C) → Keeps n (vote_counted get_digest make_request ihm msg n)
  unfolding vote_counted
  vote_counted-Keeps msg n =
      Ensures-if _ _ _
        (quiet n (interrupt get_digest make_request ihm n) [] refl (omega arith) refl refl)
        (Ensures-if (ltb n.sequence_id msg.seq_id) _ _
          (elim (Option-cases (GoMap.lookup msg.digest n.request_pool)) [
            | inl e ↦ rw e (accept_propose-Keeps (propose_of get_digest make_request ihm msg) n e)
            | inr (r, e) ↦ rw e (same n [] refl)
          ])
          (same n [] refl))

  handle_vote-Keeps :
      (msg : Vote) (n : HotstuffNode C) → Keeps n (handle_vote get_digest make_request ihm msg n)
  unfolding handle_vote
  handle_vote-Keeps msg n =
      let (b, i, v) = count_vote-same msg n in
      Ensures-weaken _ (λ r h. (omega (arith, h.0, b), h.1 ∙ i, h.2 ∙ v))
        (vote_counted-Keeps msg (count_vote get_digest make_request ihm msg n))

  handle_request_old_seq-Keeps :
      (msg : RequestOldMessage) (n : HotstuffNode C)
      → Keeps n (handle_request_old_seq get_digest make_request ihm msg n)
  unfolding handle_request_old_seq
  handle_request_old_seq-Keeps msg n = Ensures-if _ _ _ (same n [] refl) (
      Ensures-bind (ihm.handle_reqest_for_old_seq msg n) _
        (Ensures-of (ihm.handle_reqest_for_old_seq msg n) (λ a f. framed.for_old_seq msg n a f))
        (λ a k.
          quiet n a _ refl (omega (arith, budget-eq n a k.0.timers k.1)) k.0.node_id k.0.view))

  store_old-same :
      (height : ℕ) (rs : List Request) (n : HotstuffNode C)
      → (budget d (store_old get_digest make_request ihm height rs n) ≤ budget d n)
        × ((store_old get_digest make_request ihm height rs n).node_id ≡ n.node_id)
        × ((store_old get_digest make_request ihm height rs n).view ≡ n.view)
  unfolding store_old
  store_old-same height [] n = (omega arith, refl, refl)
  store_old-same height (r ∷ rs) n =
      let (b, i, v) = store_old-same (add_u64 height 1) rs _ in
      (ground (arith, b, absent-insert d (get_digest r) r n.request_pool), i, v)

  handle_send_old_seq-Keeps :
      (msg : SendOldMessage) (n : HotstuffNode C)
      → Keeps n (handle_send_old_seq get_digest make_request ihm msg n)
  unfolding handle_send_old_seq release_ask
  handle_send_old_seq-Keeps msg n =
      Ensures-bind (ihm.handle_for_sequential_request msg n) _
        (Ensures-of (ihm.handle_for_sequential_request msg n) (λ a f. framed.sequential msg n a f))
        (λ a k.
          let (b, i, v) = store_old-same msg.seq_start_height msg.old_request a in
          Ensures-if _ _ _
            (quiet n _ [] refl (omega (arith, b, budget-eq n a k.0.timers k.1)) (i ∙ k.0.node_id)
              (v ∙ k.0.view))
            panics)

  receive-Keeps :
      (msg : HotstuffMsg) (n : HotstuffNode C) → Keeps n (receive get_digest make_request ihm msg n)
  unfolding receive handle_message
  receive-Keeps (propose_msg msg) n =
      Ensures-if n.tcp_pool_lock _ _ (same n [] refl) (handle_propose-Keeps msg n)
  receive-Keeps (vote_msg msg) n =
      Ensures-if n.tcp_pool_lock _ _ (same n [] refl) (handle_vote-Keeps msg n)
  receive-Keeps (request_old_seq msg) n =
      Ensures-if n.tcp_pool_lock _ _ (same n [] refl) (handle_request_old_seq-Keeps msg n)
  receive-Keeps (send_old_seq msg) n =
      Ensures-if n.tcp_pool_lock _ _ (same n [] refl) (handle_send_old_seq-Keeps msg n)

  step-Keeps :
      (e : HotstuffEvent) (n : HotstuffNode C)
      → (n.view == n.node_id) ≡ false
      → Keeps n (step get_digest make_request ihm e n)
  unfolding step
  step-Keeps proposes n h = propose-Keeps n h
  step-Keeps (receives msg) n h = receive-Keeps msg n
  step-Keeps (expires i) n h = expire-Keeps i n

  run-Keeps :
      (es : List HotstuffEvent) (n : HotstuffNode C)
      → (n.view == n.node_id) ≡ false
      → Keeps n (run get_digest make_request ihm es n)
  unfolding run
  run-Keeps [] n h = same n [] refl
  run-Keeps (e ∷ es) n h =
      Ensures-bind (step get_digest make_request ihm e n) _ (step-Keeps e n h) (λ a k.
        Ensures-bind (run get_digest make_request ihm es a.0) _ (run-Keeps es a.0 (rw (k.1, k.2) h))
          (λ b l.
            done (omega (arith, executions-append d a.1 b.1, k.0, l.0), l.1 ∙ k.1, l.2 ∙ k.2)))

  -- Whatever messages a node that is not the main node receives, however its timers end, and whatever
  -- old blocks it is sent, with an extra module that keeps to its frame: it executes proposals of one
  -- digest at most as often as timers for it run at the start, and once more if its pool does not hold
  -- the digest then; so once at most, if it starts with no timers.
  pub run-executes_once :
      (es : List HotstuffEvent) (n n' : HotstuffNode C) (out : List (Action X))
      → (n.view == n.node_id) ≡ false
      → run get_digest make_request ihm es n ≡ ok (n', out)
      → executions d out ≤ pending d n.timers + absent d n.request_pool
  run-executes_once es n n' out h e =
      let (b, i, v) = Ensures-eq (run-Keeps es n h) e in omega (arith, b)
