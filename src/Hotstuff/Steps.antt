-- ===== src/Hotstuff/Steps.antt =====
-- consensus_shard/synchotstuff_all: what single steps and runs of a node come to.
use utxo_block_emulator.Base.{
  List, [], ◌∷◌, ◌++◌, true, false, none, some, ◌≡◌, refl, ap, ◌∙◌, Bytes, bytes_eq, nat_eq, ◌==◌,
  if◌then◌else◌, arith, eq_iff, Option-cases, inl, inr, add_u64, get_elem?,
}
use utxo_block_emulator.Base.GoMap
use utxo_block_emulator.Base.GoMap.{GoMap, lookup-insert}
use utxo_block_emulator.Base.Outcome.{Outcome, ok, panic, ◌>>=◌}
use utxo_block_emulator.Message.{Request, Propose}
use utxo_block_emulator.Hotstuff.{
  HotstuffNode, Action, broadcast_vote, executes, HotstuffMod, HotstuffMsg, propose_msg,
  HotstuffEvent, receives, expires,
}
use utxo_block_emulator.Hotstuff.Handlers.{
  extras, remove, accept_propose, handle_propose, execute, release_sequence, wait_to_commit,
  handle_message, receive, expire, step, run, store_request, start_timer, vote_of,
}
use utxo_block_emulator.Hotstuff.Once.{absent}

module _ {C X : Type 0} (get_digest : Request → Bytes)
    (make_request : HotstuffNode C → Outcome (HotstuffNode C × Request))
    (ihm : HotstuffMod C X) where
  pub run-nil : (n : HotstuffNode C) → run get_digest make_request ihm [] n ≡ ok (n, [])
  unfolding run
  run-nil n = refl

  pub run-cons :
      (e : HotstuffEvent) (es : List HotstuffEvent) (n n₁ n₂ : HotstuffNode C)
      (out₁ out₂ : List (Action X))
      → step get_digest make_request ihm e n ≡ ok (n₁, out₁)
      → run get_digest make_request ihm es n₁ ≡ ok (n₂, out₂)
      → run get_digest make_request ihm (e ∷ es) n ≡ ok (n₂, out₁ ++ out₂)
  unfolding run
  run-cons e es n n₁ n₂ out₁ out₂ p q = rw (p, run) (ap (λ m. m >>= λ r. ok (r.0, out₁ ++ r.1)) q)

  pub receive-locked :
      (m : HotstuffMsg) (n : HotstuffNode C)
      → n.tcp_pool_lock ≡ true
      → step get_digest make_request ihm (receives m) n ≡ ok (n, [])
  unfolding step receive
  receive-locked m n h =
      ap (λ b. if b then ok (n, []) else handle_message get_digest make_request ihm m n) h

  -- What a valid proposal that is new makes of the node: a vote, and a timer.
  abbrev pub begun : Propose → HotstuffNode C → HotstuffNode C
  begun msg n₁ =
      start_timer get_digest make_request ihm msg (store_request get_digest make_request ihm msg n₁)

  accept_propose-begun :
      (msg : Propose) (n n₁ : HotstuffNode C)
      → get_digest msg.request_msg ≡ msg.digest
      → ihm.handle_in_propose msg n ≡ ok (n₁, true)
      → accept_propose get_digest make_request ihm msg n
        ≡ ok (begun msg n₁, broadcast_vote (vote_of get_digest make_request ihm msg n₁) ∷ [])
  unfolding accept_propose
  accept_propose-begun msg n n₁ e f =
      rw ((eq_iff (get_digest msg.request_msg) msg.digest).1 e, f, accept_propose) refl

  handle_propose-begun :
      (msg : Propose) (n n₁ : HotstuffNode C)
      → GoMap.lookup msg.digest n.request_pool ≡ none
      → get_digest msg.request_msg ≡ msg.digest
      → ihm.handle_in_propose msg n ≡ ok (n₁, true)
      → handle_propose get_digest make_request ihm msg n
        ≡ ok (begun msg n₁, broadcast_vote (vote_of get_digest make_request ihm msg n₁) ∷ [])
  unfolding handle_propose
  handle_propose-begun msg n n₁ fresh e f =
      rw (fresh, handle_propose) (accept_propose-begun msg n n₁ e f)

  pub step-begun :
      (msg : Propose) (n n₁ : HotstuffNode C)
      → n.tcp_pool_lock ≡ false
      → GoMap.lookup msg.digest n.request_pool ≡ none
      → get_digest msg.request_msg ≡ msg.digest
      → ihm.handle_in_propose msg n ≡ ok (n₁, true)
      → step get_digest make_request ihm (receives (propose_msg msg)) n
        ≡ ok (begun msg n₁, broadcast_vote (vote_of get_digest make_request ihm msg n₁) ∷ [])
  unfolding step receive handle_message
  step-begun msg n n₁ free fresh e f =
      ap (λ b. if b then ok (n, []) else handle_propose get_digest make_request ihm msg n) free
      ∙ handle_propose-begun msg n n₁ fresh e f

  -- The node once a proposal is executed.
  abbrev pub after : Propose → HotstuffNode C → HotstuffNode C
  after t m = record m {
    is_reply = GoMap.insert t.digest true m.is_reply;
    sequence_id = add_u64 m.sequence_id 1;
  }

  waited :
      (t : Propose) (m m₁ : HotstuffNode C) (xs : List X)
      → absent t.digest m.request_pool ≡ 0
      → ihm.commit t m ≡ ok (m₁, xs)
      → (m₁.node_id == m₁.view) ≡ false
      → wait_to_commit get_digest make_request ihm t m ≡ ok (after t m₁, executes t ∷ extras xs)
  unfolding wait_to_commit execute release_sequence
  waited t m m₁ xs z c f = elim (Option-cases (GoMap.lookup t.digest m.request_pool)) [
    | inl e ↦ absurd (ground (arith, e))
    | inr (r, e) ↦
        rw (e, c, wait_to_commit)
          (ap
            (λ b.
              if b
              then (if m₁.sequence_lock
                  then ok (record (after t m₁) { sequence_lock = false }, executes t ∷ extras xs)
                  else panic)
              else ok (after t m₁, executes t ∷ extras xs))
            f)
  ]

  pub expire_first :
      (t : Propose) (ts : List Propose) (m m₁ : HotstuffNode C) (xs : List X)
      → m.timers ≡ t ∷ ts
      → absent t.digest m.request_pool ≡ 0
      → ihm.commit t (record m { timers = ts }) ≡ ok (m₁, xs)
      → (m₁.node_id == m₁.view) ≡ false
      → step get_digest make_request ihm (expires 0) m ≡ ok (after t m₁, executes t ∷ extras xs)
  unfolding step expire
  expire_first t ts m m₁ xs e z c f =
      ap
        (λ l. elim (get_elem? l 0) [
          | none ↦ ok (m, [])
          | some msg ↦
              wait_to_commit get_digest make_request ihm msg (record m { timers = remove 0 l })
        ])
        e
      ∙ waited t (record m { timers = ts }) m₁ xs z c f
