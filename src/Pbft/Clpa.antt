-- ===== src/Pbft/Clpa.antt =====
-- consensus_shard/pbft_all: the modules for the CLPA algorithm, by which accounts move between shards. Here
-- are the messages of message/message_CLPA.go and the data of dataSupport/clpaData_Extra.go, which both
-- modules of a node share.
pub mod Transfer
pub mod Inside
pub mod Outside
pub mod Compact
pub mod Selected
pub mod Moves
pub mod Fetched
pub mod Rounds
pub mod Taken
pub mod Applied
use utxo_block_emulator.Base.{ℕ, List, [], Bool, false, Bytes}
use utxo_block_emulator.Base.Text.{codes}
use utxo_block_emulator.Base.GoMap.{GoMap}
use utxo_block_emulator.Core.Account.{AccountState}
use utxo_block_emulator.Core.Transaction.{Transaction}
use utxo_block_emulator.Message.{RequestType, Relay, BlockInfoMsg}
use utxo_block_emulator.Chain.Blockchain.{Env, BlockChain}
use utxo_block_emulator.Pbft.{Node}

abbrev pub partition_req : RequestType
partition_req = codes "PartitionReq"

pub record PartitionModifiedMap : Type 0 where
  pub partition_modified : GoMap Bytes ℕ

pub record AccountTransferMsg : Type 0 where
  pub modified_map : GoMap Bytes ℕ
  pub addrs : List Bytes
  pub account_state : List AccountState
  pub at_id : ℕ

pub record PartitionReady : Type 0 where
  pub from_shard : ℕ
  pub now_seq_id : ℕ

pub record AccountStateAndTx : Type 0 where
  pub addrs : List Bytes
  pub account_state : List AccountState
  pub txs : List Transaction
  pub from_shard : ℕ

pub record DataSupportClpa : Type 0 where
  pub modified_map : List (GoMap Bytes ℕ)
  pub account_transfer_round : ℕ
  pub received_new_account_state : GoMap Bytes AccountState
  pub received_new_tx : List Transaction
  pub account_state_tx : GoMap ℕ AccountStateAndTx
  pub partition_on : Bool
  pub partition_ready : GoMap ℕ Bool
  pub ready_seq : GoMap ℕ ℕ
  pub collect_over : Bool

unfoldable pub new_clpa_data_support : DataSupportClpa
new_clpa_data_support = record {
  modified_map = [];
  account_transfer_round = 0;
  received_new_account_state = [];
  received_new_tx = [];
  account_state_tx = [];
  partition_on = false;
  partition_ready = [];
  ready_seq = [];
  collect_over = false;
}

-- The chain of the node, and the data that its modules share.
pub record ClpaChain (E : Env) : Type 0 where
  pub chain : BlockChain E
  pub cdm : DataSupportClpa

abbrev pub ClpaNode : Env → Type 0
ClpaNode E = Node (ClpaChain E)

-- What the modules send: to the main node of a shard, or to the supervisor.
pub data ClpaOut : Type 0 where
  partition_ready_to : (shard : ℕ) → PartitionReady → ClpaOut
  accounts_to : (shard : ℕ) → AccountStateAndTx → ClpaOut
  clpa_relay_to : (shard : ℕ) → Relay → ClpaOut
  clpa_block_info : BlockInfoMsg → ClpaOut
