-- ===== src/Hotstuff.antt =====
-- consensus_shard/synchotstuff_all: the node of the synchronous HotStuff consensus, its interface of
-- extra modules, and what it sends. A handler takes the decoded message.
pub mod Handlers
pub mod Relay
pub mod Outside
pub mod Frame
pub mod Framed
pub mod Once
pub mod Unasked
pub mod Steps
pub mod Stops
pub mod Twice
use utxo_block_emulator.Base.{
  ℕ, ◌+◌, ◌/◌, List, [], ◌∷◌, Bool, true, false, Option, none, some, Bytes, bytes_eq, nat_eq,
  add_u64,
}
use utxo_block_emulator.Base.GoMap
use utxo_block_emulator.Base.GoMap.{GoMap}
use utxo_block_emulator.Base.Outcome.{Outcome}
use utxo_block_emulator.Message.{
  ShardNode, Request, Propose, Vote, RequestOldMessage, SendOldMessage,
}

-- `timers` are the proposals that a `WaitToCommit` waits with, in the order in which they started. No
-- code makes the channel `pBreak`, and a send to a nil channel waits for ever: `tcp_pool_lock` is set
-- once a handler waits so, for it keeps the `tcpPoolLock` that each message takes.
pub record HotstuffNode (C : Type 0) : Type 0 where
  pub running_node : ShardNode
  pub shard_id : ℕ
  pub node_id : ℕ
  pub cur_chain : C
  pub ip_node_table : GoMap ℕ (GoMap ℕ Bytes)
  pub node_nums : ℕ
  pub malicious_nums : ℕ
  pub view : ℕ
  pub sequence_id : ℕ
  pub stop : Bool
  pub request_pool : GoMap Bytes Request
  pub cnt_vote_confirm : GoMap Bytes ℕ
  pub is_vote_bordcast : GoMap Bytes Bool
  pub is_reply : GoMap Bytes Bool
  pub height_to_digest : GoMap ℕ Bytes
  pub sequence_lock : Bool
  pub ask_for_lock : Bool
  pub seq_id_map : GoMap ℕ ℕ
  pub tcp_pool_lock : Bool
  pub timers : List Propose

-- `NewSyncHotstuffNode`, over a chain whose top block has the given height.
unfoldable pub new_hotstuff_node :
    {C : Type 0}
    → (shard_id node_id nodes_per_shard height : ℕ) → C
    → GoMap ℕ (GoMap ℕ Bytes)
    → HotstuffNode C
new_hotstuff_node shard_id node_id nodes_per_shard height chain table = record {
  running_node = record {
    node_id = node_id;
    shard_id = shard_id;
    ip_addr = GoMap.get_or node_id [] (GoMap.get_or shard_id [] table);
  };
  shard_id = shard_id;
  node_id = node_id;
  cur_chain = chain;
  ip_node_table = table;
  node_nums = nodes_per_shard;
  malicious_nums = nodes_per_shard / 2;
  view = 0;
  sequence_id = add_u64 height 1;
  stop = false;
  request_pool = [];
  cnt_vote_confirm = [];
  is_vote_bordcast = [];
  is_reply = [];
  height_to_digest = [];
  sequence_lock = false;
  ask_for_lock = false;
  seq_id_map = [];
  tcp_pool_lock = false;
  timers = [];
}

-- What a node does that others can see: what it writes to the network, and the proposals that it
-- hands to `Commit`.
pub data Action (X : Type 0) : Type 0 where
  broadcast_propose : Propose → Action X
  broadcast_vote : Vote → Action X
  request_old : RequestOldMessage → Bytes → Action X
  send_old : SendOldMessage → Bytes → Action X
  executes : Propose → Action X
  extra : X → Action X

-- `SyncHotstuffInsideExtraHandleMod`; nothing calls `HandleinVote`.
pub record HotstuffMod (C X : Type 0) : Type 0 where
  pub handle_in_propose : Propose → HotstuffNode C → Outcome (HotstuffNode C × Bool)
  pub commit : Propose → HotstuffNode C → Outcome (HotstuffNode C × List X)
  pub handle_in_vote : Vote → HotstuffNode C → Outcome (HotstuffNode C)
  pub handle_reqest_for_old_seq : RequestOldMessage → HotstuffNode C → Outcome (HotstuffNode C)
  pub handle_for_sequential_request : SendOldMessage → HotstuffNode C → Outcome (HotstuffNode C)

pub data HotstuffMsg : Type 0 where
  propose_msg : Propose → HotstuffMsg
  vote_msg : Vote → HotstuffMsg
  request_old_seq : RequestOldMessage → HotstuffMsg
  send_old_seq : SendOldMessage → HotstuffMsg

-- A round of `Propose`, a message, or the end of the i-th timer.
pub data HotstuffEvent : Type 0 where
  proposes : HotstuffEvent
  receives : HotstuffMsg → HotstuffEvent
  expires : ℕ → HotstuffEvent
