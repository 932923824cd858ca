-- ===== src/Hotstuff/Frame.antt =====
-- What the protocol of consensus_shard/synchotstuff_all relies on of the extra module: which fields of
-- the node each method leaves alone.
use utxo_block_emulator.Base.{List, Bool, ◌≡◌, bytes_eq}
use utxo_block_emulator.Base.GoMap
use utxo_block_emulator.Base.Outcome.{ok}
use utxo_block_emulator.Message.{Propose, RequestOldMessage, SendOldMessage}
use utxo_block_emulator.Hotstuff.{HotstuffNode, HotstuffMod}

pub record SameControl {C : Type 0} (n n' : HotstuffNode C) : Type 0 where
  pub node_id : n'.node_id ≡ n.node_id
  pub view : n'.view ≡ n.view
  pub is_reply : n'.is_reply ≡ n.is_reply
  pub sequence_lock : n'.sequence_lock ≡ n.sequence_lock
  pub ask_for_lock : n'.ask_for_lock ≡ n.ask_for_lock
  pub tcp_pool_lock : n'.tcp_pool_lock ≡ n.tcp_pool_lock
  pub timers : n'.timers ≡ n.timers

-- A proposal that the module agrees to is stored under its digest.
pub record IsFramed {C X : Type 0} (m : HotstuffMod C X) : Type 0 where
  pub in_propose :
      (msg : Propose) (n n' : HotstuffNode C) (b : Bool)
      → m.handle_in_propose msg n ≡ ok (n', b)
      → SameControl n n'
  pub in_propose_pool :
      (msg : Propose) (n n' : HotstuffNode C) (b : Bool)
      → m.handle_in_propose msg n ≡ ok (n', b)
      → n'.request_pool ≡ elim b [
        | Bool.true ↦ GoMap.insert msg.digest msg.request_msg n.request_pool
        | Bool.false ↦ n.request_pool
      ]
  pub in_commit :
      (msg : Propose) (n n' : HotstuffNode C) (xs : List X)
      → m.commit msg n ≡ ok (n', xs)
      → SameControl n n' × (n'.request_pool ≡ n.request_pool)
  pub for_old_seq :
      (msg : RequestOldMessage) (n n' : HotstuffNode C)
      → m.handle_reqest_for_old_seq msg n ≡ ok n'
      → SameControl n n' × (n'.request_pool ≡ n.request_pool)
  pub sequential :
      (msg : SendOldMessage) (n n' : HotstuffNode C)
      → m.handle_for_sequential_request msg n ≡ ok n'
      → SameControl n n' × (n'.request_pool ≡ n.request_pool)
