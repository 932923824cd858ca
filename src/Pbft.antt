-- ===== src/Pbft.antt =====
-- consensus_shard/pbft_all: the consensus node of a shard. JSON is the standard library's, so a handler
-- takes the decoded message; a decode allocates the message's `SenderNode` anew.
pub mod Handlers
pub mod Frame
pub mod Once
pub mod Pool
pub mod Answers
pub mod Quorum
pub mod Modules
pub mod Clpa
pub mod ClpaBroker
use utxo_block_emulator.Base.{
  ℕ, suc, ◌+◌, ◌-◌, ◌*◌, ◌/◌, ◌%◌, ◌^◌, List, [], ◌∷◌, Bool, true, false, Option, none, some, Bytes,
  bytes_eq, nat_eq, ◌==◌, if◌then◌else◌, length, add_u64,
}
use utxo_block_emulator.Base.GoMap
use utxo_block_emulator.Base.GoMap.{GoMap}
use utxo_block_emulator.Base.Outcome.{Outcome}
use utxo_block_emulator.Message.{
  ShardNode, Request, PrePrepare, Prepare, Commit, RequestOldMessage, SendOldMessage,
}

-- A `*shard.Node` as a map key is an address, `next_ptr` the first that is free. `C` is the chain and
-- what the extra modules own. The two counters are maps from a digest to a set of addresses.
pub record Node (C : Type 0) : Type 0 where
  pub running_node : ShardNode
  pub shard_id : ℕ
  pub node_id : ℕ
  pub cur_chain : C
  pub ip_node_table : GoMap ℕ (GoMap ℕ Bytes)
  pub node_nums : ℕ
  pub malicious_nums : ℕ
  pub view : ℕ
  pub sequence_id : ℕ
  pub stop : Bool
  pub request_pool : GoMap Bytes Request
  pub cnt_prepare_confirm : GoMap Bytes (GoMap ℕ Bool)
  pub cnt_commit_confirm : GoMap Bytes (GoMap ℕ Bool)
  pub is_commit_bordcast : GoMap Bytes Bool
  pub is_reply : GoMap Bytes Bool
  pub height_to_digest : GoMap ℕ Bytes
  pub sequence_lock : Bool
  pub ask_for_lock : Bool
  pub seq_id_map : GoMap ℕ ℕ
  pub next_ptr : ℕ

-- `NewPbftNode`, over a chain whose top block has the given height.
unfoldable pub new_pbft_node :
    {C : Type 0}
    → (shard_id node_id nodes_per_shard height : ℕ) → C
    → GoMap ℕ (GoMap ℕ Bytes)
    → Node C
new_pbft_node shard_id node_id nodes_per_shard height chain table = record {
  running_node = record {
    node_id = node_id;
    shard_id = shard_id;
    ip_addr = GoMap.get_or node_id [] (GoMap.get_or shard_id [] table);
  };
  shard_id = shard_id;
  node_id = node_id;
  cur_chain = chain;
  ip_node_table = table;
  node_nums = nodes_per_shard;
  malicious_nums = (nodes_per_shard + 2 ^ 64 - 1) % 2 ^ 64 / 3;
  view = 0;
  sequence_id = add_u64 height 1;
  stop = false;
  request_pool = [];
  cnt_prepare_confirm = [];
  cnt_commit_confirm = [];
  is_commit_bordcast = [];
  is_reply = [];
  height_to_digest = [];
  sequence_lock = false;
  ask_for_lock = false;
  seq_id_map = [];
  next_ptr = 0;
}

-- What a node writes to the network: a broadcast to the shard, a message to an address, or a message
-- of the extra modules.
pub data Sent (X : Type 0) : Type 0 where
  broadcast_pre_prepare : PrePrepare → Sent X
  broadcast_prepare : Prepare → Sent X
  broadcast_commit : Commit → Sent X
  request_old : RequestOldMessage → Bytes → Sent X
  send_old : SendOldMessage → Bytes → Sent X
  extra : X → Sent X

-- `PbftInsideExtraHandleMod`: each method may change the node.
pub record InsideMod (C X : Type 0) : Type 0 where
  pub handle_in_propose : Node C → Outcome (Node C × Request)
  pub handle_in_pre_prepare : PrePrepare → Node C → Outcome (Node C × Bool)
  pub handle_in_prepare : Prepare → Node C → Outcome (Node C)
  pub handle_in_commit : Commit → Node C → Outcome (Node C × List X)
  pub handle_reqest_for_old_seq : RequestOldMessage → Node C → Outcome (Node C)
  pub handle_for_sequential_request : SendOldMessage → Node C → Outcome (Node C)

-- `if _, ok := m[key]; !ok { m[key] = make(...) }; m[key][val] = true`
unfoldable pub confirm : Bytes → ℕ → GoMap Bytes (GoMap ℕ Bool) → GoMap Bytes (GoMap ℕ Bool)
confirm key val m =
    let m' : GoMap Bytes (GoMap ℕ Bool) = elim (GoMap.lookup key m) [
      | none ↦ GoMap.insert key [] m
      | some _ ↦ m
    ] in
    GoMap.insert key (GoMap.insert val true (GoMap.get_or key [] m')) m'

unfoldable pub set_2d_map : {C : Type 0} → Bool → Bytes → ℕ → Node C → Node C
unfolding confirm
set_2d_map true key val n = record n { cnt_prepare_confirm = confirm key val n.cnt_prepare_confirm }
set_2d_map false key val n = record n { cnt_commit_confirm = confirm key val n.cnt_commit_confirm }

-- `for range m[key] { cnt++ }`
unfoldable pub count : Bytes → GoMap Bytes (GoMap ℕ Bool) → ℕ
count key m = length (GoMap.get_or key [] m)

-- The address of the `SenderNode` of the message that is decoded.
abbrev pub decoded : {C : Type 0} → Node C → Node C
decoded n = record n { next_ptr = suc n.next_ptr }

pub data Msg : Type 0 where
  pre_prepare : PrePrepare → Msg
  prepare : Prepare → Msg
  commit : Commit → Msg
  request_old_seq : RequestOldMessage → Msg
  send_old_seq : SendOldMessage → Msg

pub data Event : Type 0 where
  proposes : Event
  receives : Msg → Event
