-- ===== src/Message.antt =====
-- message/: the message types, the payloads of the consensus and relay messages, and the 30-byte
-- type prefix that `MergeMessage` writes and `SplitMessage` reads. JSON is the standard library's.
pub mod Prefix
use utxo_block_emulator.Base.{ℕ, Bytes, List, []}
use utxo_block_emulator.Base.Text.{codes}
use utxo_block_emulator.Core.Transaction.{Transaction}
use utxo_block_emulator.Core.UtxoTransaction.{UtxoTransaction}

abbrev pub MessageType : Type 0
MessageType = Bytes

abbrev pub RequestType : Type 0
RequestType = Bytes

abbrev pub c_propose : MessageType
c_propose = codes "propose"

abbrev pub c_vote : MessageType
c_vote = codes "vote"

abbrev pub c_pre_prepare : MessageType
c_pre_prepare = codes "preprepare"

abbrev pub c_prepare : MessageType
c_prepare = codes "prepare"

abbrev pub c_commit : MessageType
c_commit = codes "commit"

abbrev pub c_request_oldrequest : MessageType
c_request_oldrequest = codes "requestOldrequest"

abbrev pub c_send_oldrequest : MessageType
c_send_oldrequest = codes "sendOldrequest"

abbrev pub c_stop : MessageType
c_stop = codes "stop"

abbrev pub c_relay : MessageType
c_relay = codes "relay"

abbrev pub c_inject : MessageType
c_inject = codes "inject"

abbrev pub c_block_info : MessageType
c_block_info = codes "BlockInfo"

abbrev pub c_seq_id_info : MessageType
c_seq_id_info = codes "SequenceID"

abbrev pub block_request : RequestType
block_request = codes "Block"

-- shard/nodes.go
pub record ShardNode : Type 0 where
  pub node_id : ℕ
  pub shard_id : ℕ
  pub ip_addr : Bytes

pub record Request : Type 0 where
  pub request_type : RequestType
  pub content : Bytes
  pub req_time : ℕ

pub record Propose : Type 0 where
  pub request_msg : Request
  pub digest : Bytes
  pub seq_id : ℕ

pub record Vote : Type 0 where
  pub request_msg : Request
  pub digest : Bytes
  pub seq_id : ℕ
  pub sender_node : ShardNode

pub record PrePrepare : Type 0 where
  pub request_msg : Request
  pub digest : Bytes
  pub seq_id : ℕ

pub record Prepare : Type 0 where
  pub digest : Bytes
  pub seq_id : ℕ
  pub sender_node : ShardNode

pub record Commit : Type 0 where
  pub digest : Bytes
  pub seq_id : ℕ
  pub sender_node : ShardNode

pub record RequestOldMessage : Type 0 where
  pub seq_start_height : ℕ
  pub seq_end_height : ℕ
  pub server_node : ShardNode
  pub sender_node : ShardNode

pub record SendOldMessage : Type 0 where
  pub seq_start_height : ℕ
  pub seq_end_height : ℕ
  pub old_request : List Request
  pub sender_node : ShardNode

pub record InjectTxs : Type 0 where
  pub txs : List Transaction
  pub to_shard_id : ℕ

-- The relay modules leave the broker fields zero, and the broker modules the relay fields.
pub record BlockInfoMsg : Type 0 where
  pub block_body_length : ℕ
  pub excuted_txs : List Transaction
  pub epoch : ℕ
  pub propose_time : ℕ
  pub commit_time : ℕ
  pub sender_shard_id : ℕ
  pub relay1_tx_num : ℕ
  pub relay1_txs : List Transaction
  pub broker1_tx_num : ℕ
  pub broker1_txs : List Transaction
  pub broker2_tx_num : ℕ
  pub broker2_txs : List Transaction

pub record SeqIdInfo : Type 0 where
  pub sender_shard_id : ℕ
  pub sender_seq : ℕ

pub record Relay : Type 0 where
  pub txs : List Transaction
  pub sender_shard_id : ℕ
  pub sender_seq : ℕ

pub record RelayUtxo : Type 0 where
  pub txs : List UtxoTransaction
  pub sender_shard_id : ℕ
  pub sender_seq : ℕ
