-- ===== src/Examples/Hotstuff.antt =====
-- Runs of the synchronous HotStuff node, and each of its theorems at an input.
use utxo_block_emulator.Base.{
  ℕ, suc, ◌≡◌, ◌≢◌, ◌≤◌, ◌+◌, refl, List, [], ◌∷◌, ap, length, subst, Bool, true, false, Option,
  some, Bytes, bytes_eq, bytes_beq, nat_eq, arith,
}
use utxo_block_emulator.Base.Text.{codes}
use utxo_block_emulator.Base.GoMap.{lookup, insert, get_or}
use utxo_block_emulator.Base.Outcome.{Outcome, ok, ok-injective}
use utxo_block_emulator.Core.Block.{Block}
use utxo_block_emulator.Message.{Request, Propose, Vote, SendOldMessage, block_request}
use utxo_block_emulator.Chain.Blockchain.{
  BlockChain, is_valid_utxo_block, add_block, execute_block, append_block,
}
use utxo_block_emulator.Chain.TxRoot.{get_utxo_tx_tree_root}
use utxo_block_emulator.Chain.Storage.{store_block}
use utxo_block_emulator.Hotstuff.Steps.{begun, after}
use utxo_block_emulator.Hotstuff.{
  HotstuffNode, HotstuffMod, HotstuffEvent, Action, receives, expires, propose_msg, vote_msg,
  new_hotstuff_node, broadcast_vote,
}
use utxo_block_emulator.Pbft.Modules.{RelayOut}
use utxo_block_emulator.Hotstuff.Handlers.{
  run, step, receive, handle_message, handle_propose, accept_propose, handle_vote, vote_counted,
  count_vote, expire, wait_to_commit, execute, release_sequence, interrupt, handle_send_old_seq,
  vote_of,
}
use utxo_block_emulator.Hotstuff.Frame.{IsFramed, SameControl}
use utxo_block_emulator.Hotstuff.Relay.{
  make_request, utxo_relay_mod, check_proposal, commit_proposal,
}
use utxo_block_emulator.Hotstuff.Framed.{utxo_relay_mod-IsFramed, make_request-keeps}
use utxo_block_emulator.Hotstuff.Once.{executions, pending, absent, run-executes_once}
use utxo_block_emulator.Hotstuff.Unasked.{NeverAsks, asks, run-never_asks}
use utxo_block_emulator.Hotstuff.Stops.{vote_stops_node}
use utxo_block_emulator.Hotstuff.Twice.{two_proposals_executed}
use utxo_block_emulator.Examples.Chains.{env, chain, top, header, config}

-- An extra module that agrees to every proposal and counts its commits.
abbrev agreeing : HotstuffMod ℕ Bytes
agreeing = record {
  handle_in_propose = λ msg n.
      ok (record n { request_pool = insert msg.digest msg.request_msg n.request_pool }, true);
  commit = λ msg n. ok (record n { cur_chain = suc n.cur_chain }, msg.digest ∷ []);
  handle_in_vote = λ msg n. ok n;
  handle_reqest_for_old_seq = λ msg n. ok n;
  handle_for_sequential_request = λ msg n. ok n;
}

control :
    (n : HotstuffNode ℕ) (c : ℕ) (p : List (Bytes × Request))
    → SameControl n (record n { cur_chain = c; request_pool = p })
control n c p = record {
  node_id = refl;
  view = refl;
  is_reply = refl;
  sequence_lock = refl;
  ask_for_lock = refl;
  tcp_pool_lock = refl;
  timers = refl;
}

abbrev Agreed : Propose → HotstuffNode ℕ → HotstuffNode ℕ × Bool → Type 0
Agreed msg n r =
    SameControl n r.0
    × (r.0.request_pool ≡ elim r.1 [
      | true ↦ insert msg.digest msg.request_msg n.request_pool
      | false ↦ n.request_pool
    ])

abbrev Untouched : HotstuffNode ℕ → HotstuffNode ℕ → Type 0
Untouched n n' = SameControl n n' × (n'.request_pool ≡ n.request_pool)

agreed :
    (msg : Propose) (n n' : HotstuffNode ℕ) (b : Bool)
    → agreeing.handle_in_propose msg n ≡ ok (n', b)
    → Agreed msg n (n', b)
agreed msg n n' b h =
    subst (Agreed msg n) (ok-injective h)
      (control n n.cur_chain (insert msg.digest msg.request_msg n.request_pool), refl)

untouched : (n n' : HotstuffNode ℕ) → ok n ≡ ok n' → Untouched n n'
untouched n n' h = subst (Untouched n) (ok-injective h) (control n n.cur_chain n.request_pool, refl)

agreeing-IsFramed : IsFramed agreeing
agreeing-IsFramed = record {
  in_propose = λ msg n n' b h. (agreed msg n n' b h).0;
  in_propose_pool = λ msg n n' b h. (agreed msg n n' b h).1;
  in_commit = λ msg n n' xs h.
      subst (λ r. Untouched n r.0) (ok-injective h)
        (control n (suc n.cur_chain) n.request_pool, refl);
  for_old_seq = λ msg n n' h. untouched n n' h;
  sequential = λ msg n n' h. untouched n n' h;
}

abbrev no_request : HotstuffNode ℕ → Outcome (HotstuffNode ℕ × Request)
no_request n = ok (n, record { request_type = block_request; content = []; req_time = 0 })

abbrev get_digest : Request → Bytes
get_digest r = r.content

-- A proposal at height 1 of the block with the given text.
abbrev proposal : Bytes → Propose
proposal text = record {
  request_msg = record { request_type = block_request; content = text; req_time = 3 };
  digest = text;
  seq_id = 1;
}

-- A node that is not the main node of shard 0, of four nodes.
abbrev node : HotstuffNode ℕ
node = new_hotstuff_node 0 1 4 0 0 []

program : Unit {0}
unfolding lookup insert get_or bytes_beq new_hotstuff_node run step receive handle_message
    handle_propose accept_propose handle_vote vote_counted count_vote expire wait_to_commit execute
    release_sequence
program = tt

abbrev outcome : {A B : Type 0} → A → B → Outcome (A × B) → A × B
outcome a b (ok r) = r
outcome a b _ = (a, b)

-- The proposal twice, and its timer.
abbrev repeated : List HotstuffEvent
repeated =
    receives (propose_msg (proposal (codes "a")))
    ∷ receives (propose_msg (proposal (codes "a")))
    ∷ expires 0
    ∷ []

abbrev repeated_end : HotstuffNode ℕ × List (Action Bytes)
repeated_end = outcome node [] (run get_digest no_request agreeing repeated node)

repeated-run : run get_digest no_request agreeing repeated node ≡ ok repeated_end
unfolding program
repeated-run = refl

executed_a : executions (codes "a") repeated_end.1 ≡ 1
unfolding program
executed_a = refl

node_follows : nat_eq.beq node.view node.node_id ≡ false
unfolding program
node_follows = refl

run-executes_once_example :
    executions (codes "a") repeated_end.1
    ≤ pending (codes "a") node.timers + absent (codes "a") node.request_pool
run-executes_once_example =
    run-executes_once get_digest no_request agreeing agreeing-IsFramed (codes "a") repeated node
      repeated_end.0 repeated_end.1 node_follows repeated-run

-- With the relay module, on the chain of the other tests.
abbrev encode : Block → Bytes
encode b = b.hash

abbrev decode : Bytes → Option Block
decode bytes = some top

abbrev now : HotstuffNode (BlockChain env) → ℕ
now n = 7

abbrev relay_node : HotstuffNode (BlockChain env)
relay_node = new_hotstuff_node 0 1 4 0 (chain 0 []) []

relay_node-NeverAsks : NeverAsks relay_node
unfolding program
relay_node-NeverAsks = record { unlocked = refl; pooled = tt }

abbrev vote : Vote
vote = record {
  request_msg = record { request_type = block_request; content = codes "a"; req_time = 3 };
  digest = codes "a";
  seq_id = 1;
  sender_node = record { node_id = 2; shard_id = 0; ip_addr = [] };
}

abbrev early : List HotstuffEvent
early = receives (vote_msg vote) ∷ expires 0 ∷ []

early-run :
    run get_digest
      (make_request env encode decode now)
      (utxo_relay_mod env encode decode now)
      early
      relay_node
    ≡ ok (record relay_node { tcp_pool_lock = true }, [])
unfolding program
early-run = refl

run-never_asks_example :
    (◌≡◌ {A = ℕ} (asks {X = Bytes} []) 0)
    × ((msg : SendOldMessage) (r : HotstuffNode (BlockChain env) × List (Action RelayOut))
        → handle_send_old_seq get_digest
            (make_request env encode decode now)
            (utxo_relay_mod env encode decode now)
            msg
            (record relay_node { tcp_pool_lock = true })
          ≢ ok r)
run-never_asks_example =
    run-never_asks get_digest (make_request env encode decode now)
      (utxo_relay_mod env encode decode now) (utxo_relay_mod-IsFramed env encode decode now)
      (make_request-keeps env encode decode now) early relay_node
      (record relay_node { tcp_pool_lock = true }) [] relay_node-NeverAsks early-run

no_digest_yet : vote.digest ≢ get_or vote.seq_id [] relay_node.height_to_digest
unfolding program
no_digest_yet = λ h. cc

relay_node_at_one : (relay_node.tcp_pool_lock ≡ false) × (vote.seq_id ≡ relay_node.sequence_id)
unfolding program
relay_node_at_one = (refl, refl)

vote_stops_node_example :
    run get_digest
      (make_request env encode decode now)
      (utxo_relay_mod env encode decode now)
      (receives (vote_msg vote) ∷ receives (propose_msg (proposal (codes "a"))) ∷ [])
      relay_node
    ≡ ok (
      interrupt get_digest
          (make_request env encode decode now)
          (utxo_relay_mod env encode decode now)
          (count_vote get_digest
            (make_request env encode decode now)
            (utxo_relay_mod env encode decode now)
            vote
            relay_node),
      [],
    )
vote_stops_node_example =
    vote_stops_node get_digest (make_request env encode decode now)
      (utxo_relay_mod env encode decode now) vote (propose_msg (proposal (codes "a")) ∷ [])
      relay_node relay_node_at_one.0 relay_node_at_one.1 no_digest_yet

-- With the relay module in UTXO mode: two blocks for height 1.
abbrev second_block : Bytes → Block
second_block text = record {
  header = record (header 1) { parent_block_hash = top.hash };
  body = [];
  utxo = [];
  hash = text;
}

abbrev decode_second : Bytes → Option Block
decode_second text = some (second_block text)

abbrev follower : HotstuffNode (BlockChain env)
follower = record relay_node {
  cur_chain = record (chain 1 []) { config = record (config 1) { utxo = true } };
}

abbrev relay_mod : HotstuffMod (BlockChain env) RelayOut
relay_mod = utxo_relay_mod env encode decode_second now

abbrev new_request :
    HotstuffNode (BlockChain env) → Outcome (HotstuffNode (BlockChain env) × Request)
new_request = make_request env encode decode_second now

abbrev checked : Propose → HotstuffNode (BlockChain env) → HotstuffNode (BlockChain env)
checked msg n = record n { request_pool = insert msg.digest msg.request_msg n.request_pool }

abbrev one_checked : HotstuffNode (BlockChain env)
one_checked = checked (proposal (codes "a")) follower

abbrev two_checked : HotstuffNode (BlockChain env)
two_checked =
    checked (proposal (codes "bb"))
      (begun get_digest new_request relay_mod (proposal (codes "a")) one_checked)

abbrev two_waiting : HotstuffNode (BlockChain env)
two_waiting = begun get_digest new_request relay_mod (proposal (codes "bb")) two_checked

abbrev one_committed : HotstuffNode (BlockChain env) × List RelayOut
one_committed = outcome two_waiting [] (
    relay_mod.commit (proposal (codes "a"))
      (record two_waiting { timers = proposal (codes "bb") ∷ [] }))

abbrev two_committed : HotstuffNode (BlockChain env) × List RelayOut
two_committed = outcome two_waiting [] (
    relay_mod.commit (proposal (codes "bb"))
      (record (after get_digest new_request relay_mod (proposal (codes "a")) one_committed.0) {
        timers = [];
      }))

follower_idle :
    (follower.tcp_pool_lock ≡ false)
    × (nat_eq.beq follower.node_id follower.view ≡ false)
    × (follower.timers ≡ [])
unfolding program
follower_idle = (refl, refl, refl)

two_texts : (proposal (codes "a")).digest ≢ (proposal (codes "bb")).digest
two_texts h = omega (arith, ap length h)

two_absent :
    (absent (codes "a") follower.request_pool ≡ 1) × (absent (codes "bb") follower.request_pool ≡ 1)
unfolding program
two_absent = (refl, refl)

relay_program : Unit {0}
unfolding program check_proposal commit_proposal is_valid_utxo_block get_utxo_tx_tree_root add_block
    execute_block append_block store_block
relay_program = tt

both_valid :
    (relay_mod.handle_in_propose (proposal (codes "a")) follower ≡ ok (one_checked, true))
    × (relay_mod.handle_in_propose
          (proposal (codes "bb"))
          (begun get_digest new_request relay_mod (proposal (codes "a")) one_checked)
        ≡ ok (two_checked, true))
unfolding relay_program
both_valid = (refl, refl)

both_commit :
    (relay_mod.commit
        (proposal (codes "a"))
        (record two_waiting { timers = proposal (codes "bb") ∷ [] })
      ≡ ok one_committed)
    × (relay_mod.commit
          (proposal (codes "bb"))
          (record (after get_digest new_request relay_mod (proposal (codes "a")) one_committed.0) {
            timers = [];
          })
        ≡ ok two_committed)
unfolding relay_program
both_commit = (refl, refl)

two_proposals_executed_example :
    (n' : HotstuffNode (BlockChain env)) × (rest : List (Action RelayOut)) × (run get_digest
        new_request relay_mod
        (receives (propose_msg (proposal (codes "a")))
          ∷ receives (propose_msg (proposal (codes "bb")))
          ∷ expires 0
          ∷ expires 0
          ∷ [])
        follower
      ≡ ok (
        n',
        broadcast_vote (vote_of get_digest new_request relay_mod (proposal (codes "a")) one_checked)
            ∷ broadcast_vote
                (vote_of get_digest new_request relay_mod (proposal (codes "bb")) two_checked)
            ∷ rest,
      ))
    × (executions (codes "a") rest ≡ 1)
    × (executions (codes "bb") rest ≡ 1)
two_proposals_executed_example =
    two_proposals_executed get_digest new_request relay_mod
      (utxo_relay_mod-IsFramed env encode decode_second now) (proposal (codes "a"))
      (proposal (codes "bb")) follower one_checked two_checked follower_idle.0 follower_idle.1
      follower_idle.2 two_absent.0 two_absent.1 two_texts refl refl both_valid.0 both_valid.1
      one_committed.0 two_committed.0 one_committed.1 two_committed.1 both_commit.0 both_commit.1
