-- ===== src/Pbft/Frame.antt =====
-- What the protocol of consensus_shard/pbft_all relies on of the extra modules: which fields of the
-- node each method leaves alone.
use utxo_block_emulator.Base.{List, Bool, ◌≡◌, bytes_eq}
use utxo_block_emulator.Base.GoMap
use utxo_block_emulator.Base.Outcome.{ok}
use utxo_block_emulator.Message.{
  Request, PrePrepare, Prepare, Commit, RequestOldMessage, SendOldMessage,
}
use utxo_block_emulator.Pbft.{Node, InsideMod}

-- The votes, the locks, the identity of the node and the heights.
pub record SameVotes {C : Type 0} (n n' : Node C) : Type 0 where
  pub running_node : n'.running_node ≡ n.running_node
  pub node_id : n'.node_id ≡ n.node_id
  pub malicious_nums : n'.malicious_nums ≡ n.malicious_nums
  pub view : n'.view ≡ n.view
  pub cnt_prepare_confirm : n'.cnt_prepare_confirm ≡ n.cnt_prepare_confirm
  pub cnt_commit_confirm : n'.cnt_commit_confirm ≡ n.cnt_commit_confirm
  pub is_commit_bordcast : n'.is_commit_bordcast ≡ n.is_commit_bordcast
  pub is_reply : n'.is_reply ≡ n.is_reply
  pub height_to_digest : n'.height_to_digest ≡ n.height_to_digest
  pub sequence_lock : n'.sequence_lock ≡ n.sequence_lock
  pub ask_for_lock : n'.ask_for_lock ≡ n.ask_for_lock
  pub next_ptr : n'.next_ptr ≡ n.next_ptr

-- The request pool and the sequence id too.
pub record SameState {C : Type 0} (n n' : Node C) : Type 0 where
  pub votes : SameVotes n n'
  pub request_pool : n'.request_pool ≡ n.request_pool
  pub sequence_id : n'.sequence_id ≡ n.sequence_id

-- A pre-prepare may store its request under its digest; an answer to a request for old blocks may set
-- the sequence id.
pub record IsFramed {C X : Type 0} (m : InsideMod C X) : Type 0 where
  pub in_propose :
      (n n' : Node C) (r : Request) → m.handle_in_propose n ≡ ok (n', r) → SameState n n'
  pub in_pre_prepare :
      (msg : PrePrepare) (n n' : Node C) (b : Bool)
      → m.handle_in_pre_prepare msg n ≡ ok (n', b)
      → SameVotes n n' × (n'.sequence_id ≡ n.sequence_id)
  pub in_pre_prepare_pool :
      (msg : PrePrepare) (n n' : Node C) (b : Bool)
      → m.handle_in_pre_prepare msg n ≡ ok (n', b)
      → n'.request_pool ≡ elim b [
        | Bool.true ↦ GoMap.insert msg.digest msg.request_msg n.request_pool
        | Bool.false ↦ n.request_pool
      ]
  pub in_prepare :
      (msg : Prepare) (n n' : Node C) → m.handle_in_prepare msg n ≡ ok n' → SameState n n'
  pub in_commit :
      (msg : Commit) (n n' : Node C) (xs : List X)
      → m.handle_in_commit msg n ≡ ok (n', xs)
      → SameState n n'
  pub for_old_seq :
      (msg : RequestOldMessage) (n n' : Node C)
      → m.handle_reqest_for_old_seq msg n ≡ ok n'
      → SameState n n'
  pub sequential :
      (msg : SendOldMessage) (n n' : Node C)
      → m.handle_for_sequential_request msg n ≡ ok n'
      → SameVotes n n' × (n'.request_pool ≡ n.request_pool)
