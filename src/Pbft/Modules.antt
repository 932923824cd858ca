-- ===== src/Pbft/Modules.antt =====
-- consensus_shard/pbft_all/pbftInside_module.go, pbftInside_module_utxo.go: the extra modules for
-- relayed transactions. What both have in common is here, the rest in the children.
pub mod RawRelay
pub mod UtxoRelay
pub mod RawBroker
pub mod Outside
pub mod Framed
pub mod Sorts
pub mod Sends
pub mod Gap
pub mod Behind
pub mod Brokered
use utxo_block_emulator.Base.{
  ℕ, suc, ◌^◌, ◌-◌, List, [], ◌∷◌, ◌++◌, Bool, true, false, Option, none, some, Bytes, bytes_eq,
  nat_eq, ◌==◌, if◌then◌else◌, add_u64, sub_u64, length,
}
use utxo_block_emulator.Base.GoMap
use utxo_block_emulator.Base.Outcome.{Outcome, ok, panic, or_panic, ◌>>=◌}
use utxo_block_emulator.Core.Block.{Block}
use utxo_block_emulator.Message.{
  Request, PrePrepare, Prepare, RequestOldMessage, SendOldMessage, BlockInfoMsg, SeqIdInfo, Relay,
  RelayUtxo, block_request,
}
use utxo_block_emulator.Chain.Blockchain.{Env, BlockChain, generate_block, add_block}
use utxo_block_emulator.Pbft.{Node}

-- What the modules send: to the main node of a shard, or to the supervisor.
pub data RelayOut : Type 0 where
  relay_to : (shard : ℕ) → Relay → RelayOut
  relay_utxo_to : (shard : ℕ) → RelayUtxo → RelayOut
  seq_id_to : (shard : ℕ) → SeqIdInfo → RelayOut
  block_info : BlockInfoMsg → RelayOut

-- `encode` and `decode` are the gob encoding of a block, and its decoding, which panics on what is not
-- one; `now` is the reading of the clock.
module _ (E : Env) (encode : Block → Bytes) (decode : Bytes → Option Block)
    (now : Node (BlockChain E) → ℕ) where
  -- `HandleinPropose`
  unfoldable pub propose_block : Node (BlockChain E) → Outcome (Node (BlockChain E) × Request)
  unfolding generate_block
  propose_block n = do
    (block, chain) ← generate_block E (now n) n.cur_chain
    ok (
      record n { cur_chain = chain },
      record { request_type = block_request; content = encode block; req_time = now n },
    )

  -- `HandleinPrePrepare`, by the chain's test of a block: a valid one's request is put into the pool.
  unfoldable pub check_block :
      (Block → BlockChain E → Bool)
      → PrePrepare
      → Node (BlockChain E)
      → Outcome (Node (BlockChain E) × Bool)
  check_block is_valid msg n = do
    block ← or_panic (decode msg.request_msg.content)
    ok (
        if is_valid block n.cur_chain
        then (
          record n { request_pool = GoMap.insert msg.digest msg.request_msg n.request_pool },
          true,
        )
        else (n, false))

  -- `HandleinPrepare` and `HandleReqestforOldSeq` do nothing.
  abbrev pub no_operation : {M : Type 0} → M → Node (BlockChain E) → Outcome (Node (BlockChain E))
  no_operation msg n = ok n

  unfoldable pub add_old_block : Request → BlockChain E → Outcome (BlockChain E)
  unfolding add_block
  add_old_block r bc =
      if r.request_type == block_request
      then (do b ← or_panic (decode r.content); add_block E b bc)
      else ok bc

  unfoldable pub add_old_blocks : List Request → BlockChain E → Outcome (BlockChain E)
  unfolding add_old_block
  add_old_blocks [] bc = ok bc
  add_old_blocks (r ∷ rs) bc = do bc' ← add_old_block r bc; add_old_blocks rs bc'

  -- `int(som.SeqEndHeight-som.SeqStartHeight+1) == len(som.OldRequest)`; a length is below 2^63.
  abbrev pub is_complete : SendOldMessage → Bool
  is_complete msg =
      add_u64 (sub_u64 msg.seq_end_height msg.seq_start_height) 1 == length msg.old_request

  unfoldable pub add_sequence : SendOldMessage → Node (BlockChain E) → Outcome (Node (BlockChain E))
  unfolding add_old_blocks
  add_sequence msg n = do
    chain ← add_old_blocks msg.old_request n.cur_chain
    (if msg.seq_end_height == 2 ^ 64 - 1
        then panic
        else ok (record n { cur_chain = chain; sequence_id = add_u64 msg.seq_end_height 1 }))

  -- `HandleforSequentialRequest`. The loop runs over the requests once; where the last height is the
  -- largest number, it wraps around and reads past them.
  unfoldable pub handle_sequence :
      SendOldMessage → Node (BlockChain E) → Outcome (Node (BlockChain E))
  unfolding add_sequence
  handle_sequence msg n = if is_complete msg then add_sequence msg n else ok n
