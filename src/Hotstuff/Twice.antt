-- ===== src/Hotstuff/Twice.antt =====
-- consensus_shard/synchotstuff_all: a node that is not the main node gets two proposals.
use utxo_block_emulator.Base.{
  ◌+◌, List, [], ◌∷◌, ◌++◌, true, false, none, ◌≡◌, ◌≢◌, ap, ◌∙◌, Bytes, bytes_eq, nat_eq, ◌==◌,
  if◌then◌else◌, arith, eq_iff,
}
use utxo_block_emulator.Base.GoMap
use utxo_block_emulator.Base.GoMap.{GoMap, lookup-insert}
use utxo_block_emulator.Base.Outcome.{Outcome, ok}
use utxo_block_emulator.Message.{Request, Propose}
use utxo_block_emulator.Hotstuff.{
  HotstuffNode, Action, broadcast_vote, executes, HotstuffMod, propose_msg, receives, expires,
}
use utxo_block_emulator.Hotstuff.Handlers.{extras, run, vote_of}
use utxo_block_emulator.Hotstuff.Frame.{SameControl, IsFramed}
use utxo_block_emulator.Hotstuff.Once.{
  absent, absent-insert, executions, executions-extras, executions-append,
}
use utxo_block_emulator.Hotstuff.Steps.{run-nil, run-cons, begun, after, step-begun, expire_first}

module _ {C X : Type 0} (get_digest : Request → Bytes)
    (make_request : HotstuffNode C → Outcome (HotstuffNode C × Request)) (ihm : HotstuffMod C X)
    (framed : IsFramed ihm) where
  begun-absent :
      (d : Bytes) (p : Propose) (n n₁ : HotstuffNode C)
      → get_digest p.request_msg ≡ p.digest
      → ihm.handle_in_propose p n ≡ ok (n₁, true)
      → absent d (begun get_digest make_request ihm p n₁).request_pool
        ≡ (if p.digest == d then 0 else absent d n.request_pool)
  begun-absent d p n n₁ e f =
      rw (e, framed.in_propose_pool p n n₁ true f)
        (ground (
          arith,
          absent-insert d p.digest p.request_msg
              (GoMap.insert p.digest p.request_msg n.request_pool),
          absent-insert d p.digest p.request_msg n.request_pool,
        ))

  fresh-lookup : (d : Bytes) (m : GoMap Bytes Request) → absent d m ≡ 1 → GoMap.lookup d m ≡ none
  fresh-lookup d m h = ground arith

  module _ (p q : Propose) (n n₁ n₂ : HotstuffNode C) (free : n.tcp_pool_lock ≡ false)
      (follower : (n.node_id == n.view) ≡ false) (idle : n.timers ≡ [])
      (fresh_p : absent p.digest n.request_pool ≡ 1) (fresh_q : absent q.digest n.request_pool ≡ 1)
      (other : p.digest ≢ q.digest) (right_p : get_digest p.request_msg ≡ p.digest)
      (right_q : get_digest q.request_msg ≡ q.digest)
      (valid_p : ihm.handle_in_propose p n ≡ ok (n₁, true))
      (valid_q : ihm.handle_in_propose q (begun get_digest make_request ihm p n₁)
        ≡ ok (n₂, true)) where
    abbrev first : HotstuffNode C
    first = begun get_digest make_request ihm p n₁

    abbrev second : HotstuffNode C
    second = begun get_digest make_request ihm q n₂

    second-timers : second.timers ≡ p ∷ q ∷ []
    second-timers =
        ap (λ l. l ++ (q ∷ []))
          ((framed.in_propose q first n₂ true valid_q).timers
            ∙ ap (λ l. l ++ (p ∷ [])) ((framed.in_propose p n n₁ true valid_p).timers ∙ idle))

    second-holds_p : absent p.digest second.request_pool ≡ 0
    second-holds_p = ground (
      arith,
      begun-absent p.digest q first n₂ right_q valid_q,
      begun-absent p.digest p n n₁ right_p valid_p,
      eq_iff p.digest p.digest,
    )

    second-holds_q : absent q.digest second.request_pool ≡ 0
    second-holds_q =
        ground (arith, begun-absent q.digest q first n₂ right_q valid_q, eq_iff q.digest q.digest)

    first-fresh : absent q.digest first.request_pool ≡ 1
    first-fresh = ground (
      arith,
      begun-absent q.digest p n n₁ right_p valid_p,
      fresh_q,
      eq_iff p.digest q.digest,
      other,
    )

    second-follower : (second.node_id == second.view) ≡ false
    second-follower = rw (sq.node_id ∙ sp.node_id, sq.view ∙ sp.view) follower
      where
        sp : SameControl n n₁
        sp = framed.in_propose p n n₁ true valid_p

        sq : SameControl first n₂
        sq = framed.in_propose q first n₂ true valid_q

    -- The node after the module has committed the first, and after the second.
    module _ (m₁ m₂ : HotstuffNode C) (xs₁ xs₂ : List X)
        (commits_p : ihm.commit p (record second { timers = q ∷ [] }) ≡ ok (m₁, xs₁))
        (commits_q : ihm.commit q (record (after get_digest make_request ihm p m₁) { timers = [] })
          ≡ ok (m₂, xs₂)) where
      abbrev third : HotstuffNode C
      third = after get_digest make_request ihm p m₁

      p_same :
          SameControl (record second { timers = q ∷ [] }) m₁
          × (m₁.request_pool ≡ second.request_pool)
      p_same = framed.in_commit p _ m₁ xs₁ commits_p

      q_same :
          SameControl (record third { timers = [] }) m₂ × (m₂.request_pool ≡ third.request_pool)
      q_same = framed.in_commit q _ m₂ xs₂ commits_q

      third-follower : (m₁.node_id == m₁.view) ≡ false
      third-follower = rw (p_same.0.node_id, p_same.0.view) second-follower

      fourth-follower : (m₂.node_id == m₂.view) ≡ false
      fourth-follower = rw (q_same.0.node_id, q_same.0.view) third-follower

      -- The steps of the run that executes both.
      both_executed :
          run get_digest make_request ihm
            (receives (propose_msg p) ∷ receives (propose_msg q) ∷ expires 0 ∷ expires 0 ∷ [])
            n
          ≡ ok (
            after get_digest make_request ihm q m₂,
            (broadcast_vote (vote_of get_digest make_request ihm p n₁) ∷ [])
                ++ ((broadcast_vote (vote_of get_digest make_request ihm q n₂) ∷ [])
                    ++ ((executes p ∷ extras xs₁) ++ ((executes q ∷ extras xs₂) ++ []))),
          )
      both_executed =
          run-cons get_digest make_request ihm _ _ _ _ _ _ _
            (step-begun get_digest make_request ihm p n n₁ free
              (fresh-lookup p.digest n.request_pool fresh_p) right_p valid_p)
            (run-cons get_digest make_request ihm _ _ _ _ _ _ _
              (step-begun get_digest make_request ihm q first n₂
                ((framed.in_propose p n n₁ true valid_p).tcp_pool_lock ∙ free)
                (fresh-lookup q.digest first.request_pool first-fresh) right_q valid_q)
              (run-cons get_digest make_request ihm _ _ _ _ _ _ _
                (expire_first get_digest make_request ihm p (q ∷ []) second m₁ xs₁ second-timers
                  second-holds_p commits_p third-follower)
                (run-cons get_digest make_request ihm _ [] third _ _ _ _
                  (expire_first get_digest make_request ihm q [] third m₂ xs₂ p_same.0.timers
                    (ap (absent q.digest) p_same.1 ∙ second-holds_q) commits_q fourth-follower)
                  (run-nil get_digest make_request ihm _))))

      -- A node that is not the main node, handles messages and has no timers, gets two proposals with
      -- different digests that its pool does not hold, which name their requests' digests and which
      -- its extra module, one that keeps to its frame, agrees to one after the other; they may be for one
      -- height. It broadcasts its vote for the one and for the other, and when their timers end it executes
      -- each of the two once, if the module's commits of the first and then of the second come to an end.
      pub two_proposals_executed :
          (n' : HotstuffNode C) × (rest : List (Action X)) × (run get_digest make_request ihm
              (receives (propose_msg p) ∷ receives (propose_msg q) ∷ expires 0 ∷ expires 0 ∷ [])
              n
            ≡ ok (
              n',
              broadcast_vote (vote_of get_digest make_request ihm p n₁)
                  ∷ broadcast_vote (vote_of get_digest make_request ihm q n₂)
                  ∷ rest,
            ))
          × (executions p.digest rest ≡ 1)
          × (executions q.digest rest ≡ 1)
      two_proposals_executed = (_, _, both_executed, once_p, once_q)
        where
          once_p :
              (if p.digest == p.digest then 1 else 0)
                + executions p.digest (extras xs₁ ++ ((executes q ∷ extras xs₂) ++ []))
              ≡ 1
          once_p = ground (
            arith,
            eq_iff p.digest p.digest,
            eq_iff q.digest p.digest,
            other,
            executions-append p.digest (extras xs₁) ((executes q ∷ extras xs₂) ++ []),
            executions-append p.digest (extras xs₂) [],
            executions-extras p.digest xs₁,
            executions-extras p.digest xs₂,
          )

          once_q :
              (if p.digest == q.digest then 1 else 0)
                + executions q.digest (extras xs₁ ++ ((executes q ∷ extras xs₂) ++ []))
              ≡ 1
          once_q = ground (
            arith,
            eq_iff q.digest q.digest,
            eq_iff p.digest q.digest,
            other,
            executions-append q.digest (extras xs₁) ((executes q ∷ extras xs₂) ++ []),
            executions-append q.digest (extras xs₂) [],
            executions-extras q.digest xs₁,
            executions-extras q.digest xs₂,
          )
