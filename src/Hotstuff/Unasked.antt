-- ===== src/Hotstuff/Unasked.antt =====
-- consensus_shard/synchotstuff_all: a node never asks for old blocks, and cannot take them.
use utxo_block_emulator.Base.{
  ℕ, zero, suc, ◌+◌, List, [], ◌∷◌, ◌++◌, Bool, true, false, some, ◌≡◌, ◌≢◌, refl, ◌∙◌, subst,
  Bytes, bytes_eq, nat_eq, ◌==◌, ltb, arith, eq_iff, Option-cases, Bool-cases, inl, inr, add_u64,
  All, All-append, some-inj, get_elem?,
}
use utxo_block_emulator.Base.GoMap
use utxo_block_emulator.Base.GoMap.{GoMap, lookup-insert}
use utxo_block_emulator.Base.Outcome.{
  Outcome, ok, Ensures, done, panics, blocks, Ensures-bind, Ensures-eq, Ensures-of, Ensures-if,
}
use utxo_block_emulator.Message.{Request, Propose, Vote, RequestOldMessage, SendOldMessage}
use utxo_block_emulator.Hotstuff.{
  HotstuffNode, Action, broadcast_propose, broadcast_vote, request_old, send_old, executes, extra,
  HotstuffMod, HotstuffMsg, propose_msg, vote_msg, request_old_seq, send_old_seq, HotstuffEvent,
  proposes, receives, expires,
}
use utxo_block_emulator.Hotstuff.Handlers.{
  extras, remove, propose, propose_with, accept_propose, handle_propose, execute, release_sequence,
  wait_to_commit, count_vote, vote_counted, handle_vote, handle_request_old_seq, store_old,
  release_ask, handle_send_old_seq, handle_message, receive, expire, step, run, store_request,
  start_timer, vote_if, propose_of,
}
use utxo_block_emulator.Hotstuff.Frame.{SameControl, IsFramed}
use utxo_block_emulator.Hotstuff.Once.{absent, absent-insert}

-- How often a node asked for old blocks.
abbrev pub asks : {X : Type 0} → List (Action X) → ℕ
asks [] = 0
asks (request_old _ _ ∷ out) = suc (asks out)
asks (executes _ ∷ out) = asks out
asks (broadcast_propose _ ∷ out) = asks out
asks (broadcast_vote _ ∷ out) = asks out
asks (send_old _ _ ∷ out) = asks out
asks (extra _ ∷ out) = asks out

asks-extras : {X : Type 0} (xs : List X) → asks (extras xs) ≡ 0
asks-extras [] = refl
asks-extras (x ∷ xs) = asks-extras xs

asks-append : {X : Type 0} (as' bs : List (Action X)) → asks (as' ++ bs) ≡ asks as' + asks bs
asks-append [] bs = omega arith
asks-append (request_old _ _ ∷ as') bs = omega (arith, asks-append as' bs)
asks-append (executes p ∷ as') bs = asks-append as' bs
asks-append (broadcast_propose _ ∷ as') bs = asks-append as' bs
asks-append (broadcast_vote _ ∷ as') bs = asks-append as' bs
asks-append (send_old _ _ ∷ as') bs = asks-append as' bs
asks-append (extra _ ∷ as') bs = asks-append as' bs

-- The pool holds the request of each timer.
abbrev pub Pooled : GoMap Bytes Request → List Propose → Type 0
Pooled m ts = All (λ t. absent t.digest m ≡ 0) ts

Pooled-insert :
    (k : Bytes) (r : Request) (m : GoMap Bytes Request) (ts : List Propose)
    → Pooled m ts
    → Pooled (GoMap.insert k r m) ts
Pooled-insert k r m [] h = tt
Pooled-insert k r m (t ∷ ts) h =
    (ground (arith, absent-insert t.digest k r m), Pooled-insert k r m ts h.1)

Pooled-remove :
    (i : ℕ) (m : GoMap Bytes Request) (ts : List Propose) → Pooled m ts → Pooled m (remove i ts)
Pooled-remove i m [] h = tt
Pooled-remove zero m (t ∷ ts) h = h.1
Pooled-remove (suc i) m (t ∷ ts) h = (h.0, Pooled-remove i m ts h.1)

Pooled-at :
    (i : ℕ) (m : GoMap Bytes Request) (ts : List Propose) (t : Propose)
    → get_elem? ts i ≡ some t
    → Pooled m ts
    → absent t.digest m ≡ 0
Pooled-at i m [] t e h = cc
Pooled-at zero m (u ∷ ts) t e h = subst (λ x. absent x.digest m ≡ 0) (some-inj e) h.0
Pooled-at (suc i) m (u ∷ ts) t e h = Pooled-at i m ts t e h.1

-- No lock for asking is held, and the pool holds what the timers wait for.
pub record NeverAsks {C : Type 0} (n : HotstuffNode C) : Type 0 where
  pub unlocked : n.ask_for_lock ≡ false
  pub pooled : Pooled n.request_pool n.timers

module _ {C X : Type 0} (get_digest : Request → Bytes)
    (make_request : HotstuffNode C → Outcome (HotstuffNode C × Request)) (ihm : HotstuffMod C X)
    (framed : IsFramed ihm)
    (makes : (n n' : HotstuffNode C) (r : Request)
      → make_request n ≡ ok (n', r)
      → SameControl n n' × (n'.request_pool ≡ n.request_pool)) where
  abbrev Quiet : HotstuffNode C × List (Action X) → Type 0
  Quiet r = NeverAsks r.0 × (asks r.1 ≡ 0)

  moved :
      (n n' : HotstuffNode C)
      → SameControl n n'
      → n'.request_pool ≡ n.request_pool
      → NeverAsks n
      → NeverAsks n'
  moved n n' s p h = record {
    unlocked = s.ask_for_lock ∙ h.unlocked;
    pooled = rw (p, s.timers) h.pooled;
  }

  stored-timer :
      (msg : Propose) (n : HotstuffNode C)
      → get_digest msg.request_msg ≡ msg.digest
      → NeverAsks n
      → NeverAsks (
          start_timer get_digest make_request ihm msg
            (store_request get_digest make_request ihm msg n))
  stored-timer msg n e h = record {
    unlocked = h.unlocked;
    pooled =
        All-append _ n.timers (msg ∷ [])
          (Pooled-insert (get_digest msg.request_msg) msg.request_msg n.request_pool n.timers
            h.pooled)
          (
            ground (
              arith,
              absent-insert msg.digest (get_digest msg.request_msg) msg.request_msg n.request_pool,
              eq_iff (get_digest msg.request_msg) msg.digest,
            ),
            tt,
          );
  }

  stored-only :
      (k : Bytes) (r : Request) (n : HotstuffNode C) (hs : GoMap ℕ Bytes) (rs : GoMap Bytes Bool)
      → NeverAsks n
      → NeverAsks (record n {
        request_pool = GoMap.insert k r n.request_pool;
        height_to_digest = hs;
        is_reply = rs;
      })
  stored-only k r n hs rs h = record {
    unlocked = h.unlocked;
    pooled = Pooled-insert k r n.request_pool n.timers h.pooled;
  }

  in_propose-NeverAsks :
      (msg : Propose) (n n' : HotstuffNode C) (b : Bool)
      → ihm.handle_in_propose msg n ≡ ok (n', b)
      → NeverAsks n
      → NeverAsks n'
  in_propose-NeverAsks msg n n' true f h = record {
    unlocked = (framed.in_propose msg n n' true f).ask_for_lock ∙ h.unlocked;
    pooled =
        rw (framed.in_propose_pool msg n n' true f, (framed.in_propose msg n n' true f).timers)
          (Pooled-insert msg.digest msg.request_msg n.request_pool n.timers h.pooled);
  }
  in_propose-NeverAsks msg n n' false f h =
      moved n n' (framed.in_propose msg n n' false f) (framed.in_propose_pool msg n n' false f) h

  voted :
      (msg : Propose) (n : HotstuffNode C) (flag : Bool)
      → get_digest msg.request_msg ≡ msg.digest
      → NeverAsks n
      → Quiet (
          vote_if get_digest make_request ihm flag msg
            (store_request get_digest make_request ihm msg n))
  voted msg n true e h = (stored-timer msg n e h, refl)
  voted msg n false e h = (stored-only (get_digest msg.request_msg) msg.request_msg n _ _ h, refl)

  accept_propose-Quiet :
      (msg : Propose) (n : HotstuffNode C)
      → NeverAsks n
      → Ensures Quiet (accept_propose get_digest make_request ihm msg n)
  unfolding accept_propose
  accept_propose-Quiet msg n h = elim (Bool-cases (get_digest msg.request_msg == msg.digest)) [
    | inr e ↦ rw (e, accept_propose) (done (h, refl))
    | inl e ↦
        rw (e, accept_propose)
          (Ensures-bind (ihm.handle_in_propose msg n) _
            (Ensures-of (ihm.handle_in_propose msg n)
              (λ a f. in_propose-NeverAsks msg n a.0 a.1 f h))
            (λ a k.
              done (voted msg a.0 a.1 ((eq_iff (get_digest msg.request_msg) msg.digest).0 e) k)))
  ]

  propose-Quiet :
      (n : HotstuffNode C) → NeverAsks n → Ensures Quiet (propose get_digest make_request ihm n)
  unfolding propose propose_with
  propose-Quiet n h = Ensures-if _ _ _ (done (h, refl)) (
      Ensures-if n.sequence_lock _ _ blocks (
        Ensures-bind (make_request _) _
          (Ensures-of (make_request _)
            (λ a f. moved _ a.0 (makes _ a.0 a.1 f).0 (makes _ a.0 a.1 f).1 (locked h)))
          (λ a k. done (stored-timer _ a.0 refl k, refl))))
    where
      locked : {m : HotstuffNode C} → NeverAsks m → NeverAsks (record m { sequence_lock = true })
      locked g = record { unlocked = g.unlocked; pooled = g.pooled }

  handle_propose-Quiet :
      (msg : Propose) (n : HotstuffNode C)
      → NeverAsks n
      → Ensures Quiet (handle_propose get_digest make_request ihm msg n)
  unfolding handle_propose
  handle_propose-Quiet msg n h = elim (Option-cases (GoMap.lookup msg.digest n.request_pool)) [
    | inl e ↦ rw (e, handle_propose) (accept_propose-Quiet msg n h)
    | inr (r, e) ↦ rw (e, handle_propose) (done (h, refl))
  ]

  execute-Quiet :
      (msg : Propose) (n : HotstuffNode C)
      → NeverAsks n
      → Ensures Quiet (execute get_digest make_request ihm msg n)
  unfolding execute
  execute-Quiet msg n h =
      Ensures-bind (ihm.commit msg n) _
        (Ensures-of (ihm.commit msg n)
          (λ a f. let (s, p) = framed.in_commit msg n a.0 a.1 f in moved n a.0 s p h))
        (λ a k. done (record { unlocked = k.unlocked; pooled = k.pooled }, asks-extras a.1))

  release_sequence-Quiet :
      (r : HotstuffNode C × List (Action X))
      → Quiet r
      → Ensures Quiet (release_sequence get_digest make_request ihm r)
  unfolding release_sequence
  release_sequence-Quiet (n, out) (h, z) =
      Ensures-if (n.node_id == n.view) _ _
        (Ensures-if n.sequence_lock _ _
          (done (record { unlocked = h.unlocked; pooled = h.pooled }, z)) panics)
        (done (h, z))

  -- The branch that asks for blocks is not taken.
  wait_to_commit-Quiet :
      (msg : Propose) (n : HotstuffNode C)
      → absent msg.digest n.request_pool ≡ 0
      → NeverAsks n
      → Ensures Quiet (wait_to_commit get_digest make_request ihm msg n)
  unfolding wait_to_commit
  wait_to_commit-Quiet msg n z h = elim (Option-cases (GoMap.lookup msg.digest n.request_pool)) [
    | inl e ↦ absurd (ground (arith, e))
    | inr (r, e) ↦
        rw (e, wait_to_commit)
          (Ensures-bind (execute get_digest make_request ihm msg n) _ (execute-Quiet msg n h)
            release_sequence-Quiet)
  ]

  expire-Quiet :
      (i : ℕ) (n : HotstuffNode C)
      → NeverAsks n
      → Ensures Quiet (expire get_digest make_request ihm i n)
  unfolding expire
  expire-Quiet i n h = elim (Option-cases (get_elem? n.timers i)) [
    | inl e ↦ rw (e, expire) (done (h, refl))
    | inr (msg, e) ↦
        rw (e, expire)
          (wait_to_commit-Quiet msg (record n { timers = remove i n.timers })
            (Pooled-at i n.request_pool n.timers msg e h.pooled)
            (record {
              unlocked = h.unlocked;
              pooled = Pooled-remove i n.request_pool n.timers h.pooled;
            }))
  ]

  vote_counted-Quiet :
      (msg : Vote) (n : HotstuffNode C)
      → NeverAsks n
      → Ensures Quiet (vote_counted get_digest make_request ihm msg n)
  unfolding vote_counted
  vote_counted-Quiet msg n h =
      Ensures-if _ _ _ (done (record { unlocked = h.unlocked; pooled = h.pooled }, refl)) (
        Ensures-if (ltb n.sequence_id msg.seq_id) _ _
          (elim (Option-cases (GoMap.lookup msg.digest n.request_pool)) [
            | inl e ↦ rw e (accept_propose-Quiet (propose_of get_digest make_request ihm msg) n h)
            | inr (r, e) ↦ rw e (done (h, refl))
          ])
          (done (h, refl)))

  count_vote-NeverAsks :
      (msg : Vote) (n : HotstuffNode C)
      → NeverAsks n
      → NeverAsks (count_vote get_digest make_request ihm msg n)
  unfolding count_vote
  count_vote-NeverAsks msg n h = elim (Bool-cases (n.node_id == n.view)) [
    | inl e ↦ rw (e, count_vote) (record { unlocked = h.unlocked; pooled = h.pooled })
    | inr e ↦ rw (e, count_vote) h
  ]

  handle_request_old_seq-Quiet :
      (msg : RequestOldMessage) (n : HotstuffNode C)
      → NeverAsks n
      → Ensures Quiet (handle_request_old_seq get_digest make_request ihm msg n)
  unfolding handle_request_old_seq
  handle_request_old_seq-Quiet msg n h = Ensures-if _ _ _ (done (h, refl)) (
      Ensures-bind (ihm.handle_reqest_for_old_seq msg n) _
        (Ensures-of (ihm.handle_reqest_for_old_seq msg n)
          (λ a f. let (s, p) = framed.for_old_seq msg n a f in moved n a s p h))
        (λ a k. done (k, refl)))

  store_old-unlocked :
      (height : ℕ) (rs : List Request) (n : HotstuffNode C)
      → (store_old get_digest make_request ihm height rs n).ask_for_lock ≡ n.ask_for_lock
  unfolding store_old
  store_old-unlocked height [] n = refl
  store_old-unlocked height (r ∷ rs) n = store_old-unlocked (add_u64 height 1) rs _

  -- An answer that nobody asked for unlocks a mutex that is not locked.
  handle_send_old_seq-fails :
      {P : HotstuffNode C × List (Action X) → Type 0} (msg : SendOldMessage) (n : HotstuffNode C)
      → NeverAsks n
      → Ensures P (handle_send_old_seq get_digest make_request ihm msg n)
  unfolding handle_send_old_seq release_ask
  handle_send_old_seq-fails msg n h =
      Ensures-bind (ihm.handle_for_sequential_request msg n) _
        (Ensures-of (ihm.handle_for_sequential_request msg n)
          (λ a f. (framed.sequential msg n a f).0.ask_for_lock ∙ h.unlocked))
        (λ a k. rw (store_old-unlocked msg.seq_start_height msg.old_request a ∙ k) panics)

  handle_message-Quiet :
      (msg : HotstuffMsg) (n : HotstuffNode C)
      → NeverAsks n
      → Ensures Quiet (handle_message get_digest make_request ihm msg n)
  unfolding handle_message handle_vote
  handle_message-Quiet (propose_msg msg) n h = handle_propose-Quiet msg n h
  handle_message-Quiet (vote_msg msg) n h =
      vote_counted-Quiet msg (count_vote get_digest make_request ihm msg n)
        (count_vote-NeverAsks msg n h)
  handle_message-Quiet (request_old_seq msg) n h = handle_request_old_seq-Quiet msg n h
  handle_message-Quiet (send_old_seq msg) n h = handle_send_old_seq-fails msg n h

  step-Quiet :
      (e : HotstuffEvent) (n : HotstuffNode C)
      → NeverAsks n
      → Ensures Quiet (step get_digest make_request ihm e n)
  unfolding step receive
  step-Quiet proposes n h = propose-Quiet n h
  step-Quiet (receives msg) n h =
      Ensures-if n.tcp_pool_lock _ _ (done (h, refl)) (handle_message-Quiet msg n h)
  step-Quiet (expires i) n h = expire-Quiet i n h

  run-Quiet :
      (es : List HotstuffEvent) (n : HotstuffNode C)
      → NeverAsks n
      → Ensures Quiet (run get_digest make_request ihm es n)
  unfolding run
  run-Quiet [] n h = done (h, refl)
  run-Quiet (e ∷ es) n h =
      Ensures-bind (step get_digest make_request ihm e n) _ (step-Quiet e n h) (λ a k.
        Ensures-bind (run get_digest make_request ihm es a.0) _ (run-Quiet es a.0 k.0)
          (λ b l. done (l.0, asks-append a.1 b.1 ∙ omega (arith, k.1, l.1))))

  -- Along any run of a node whose pool holds what its timers wait for, and that holds no lock for
  -- asking, as a new node does: it never asks for old blocks, since the pool always holds the request
  -- when a timer ends; so that the handler of an answer with old blocks never comes to an end with a
  -- result: after the run it unlocks a mutex that is not locked, whatever the answer is.
  pub run-never_asks :
      (es : List HotstuffEvent) (n n' : HotstuffNode C) (out : List (Action X))
      → NeverAsks n
      → run get_digest make_request ihm es n ≡ ok (n', out)
      → (asks out ≡ 0)
        × ((msg : SendOldMessage) (r : HotstuffNode C × List (Action X))
            → handle_send_old_seq get_digest make_request ihm msg n' ≢ ok r)
  run-never_asks es n n' out h e =
      let (g, z) = Ensures-eq (run-Quiet es n h) e in
      (z, λ msg r f. Ensures-eq (handle_send_old_seq-fails {P = λ _. ⊥} msg n' g) f)
