-- ===== src/Examples/Consensus.antt =====
-- Runs of the consensus node with the relay modules, and each of their theorems at an input.
use utxo_block_emulator.Base.{
  ℕ, ◌≡◌, ◌≤◌, refl, List, [], ◌∷◌, ◌++◌, map, true, false, Option, none, some, Bytes, bytes_eq,
  bytes_beq, nat_eq, arith, keep, add_u64,
}
use utxo_block_emulator.Base.Text.{codes}
use utxo_block_emulator.Base.Int.{pos, ◌+ℤ◌}
use utxo_block_emulator.Base.GoMap.{lookup, insert, get_or}
use utxo_block_emulator.Base.Outcome.{Outcome, ok}
use utxo_block_emulator.Core.Block.{Block}
use utxo_block_emulator.Core.UtxoTransaction.{UtxoTransaction, is_coinbase, is_coinbase_of}
use utxo_block_emulator.Core.TxPool.{add_relay_map, add_relay_tx, clear_relay_pool, relay_map}
use utxo_block_emulator.Utils.{addr_to_shard, parse_digits, hex_digit}
use utxo_block_emulator.Message.{Request, Prepare, SendOldMessage, BlockInfoMsg, block_request}
use utxo_block_emulator.Chain.Ledger.{get_partition_map, handle_txs}
use utxo_block_emulator.Chain.Ledger.Balances.{table}
use utxo_block_emulator.Chain.Blockchain.{BlockChain}
use utxo_block_emulator.Pbft.{
  Node, Sent, Event, receives, prepare, pre_prepare, confirm, set_2d_map, count, new_pbft_node,
}
use utxo_block_emulator.Pbft.Handlers.{
  run, step, handle_message, collect_old, handle_prepare, accept_prepare, try_commit,
  handle_pre_prepare, handle_send_old_seq, store_old, prepare_pending, release_ask,
}
use utxo_block_emulator.Pbft.Frame.{IsFramed}
use utxo_block_emulator.Pbft.Once.{commits, run-commits_once}
use utxo_block_emulator.Pbft.Pool.{run-keeps_digests}
use utxo_block_emulator.Pbft.Answers.{collect_old-store_old}
use utxo_block_emulator.Pbft.Modules.{RelayOut, block_info, handle_sequence}
use utxo_block_emulator.Pbft.Modules.RawRelay.{
  raw_relay_mod, relay_block, relayed_tx, sort_tx, Sorted,
}
use utxo_block_emulator.Pbft.Modules.UtxoRelay.{
  relay_utxo_block, sort_utxos, sort_utxo, relay_utxo, send_utxo_relays,
}
use utxo_block_emulator.Pbft.Modules.Framed.{raw_relay_mod-IsFramed}
use utxo_block_emulator.Pbft.Modules.Sends.{
  relay_of, is_target, shards_from, report_of, relay_block-sends,
}
use utxo_block_emulator.Pbft.Modules.Gap.{
  IsUnpaid, utxo_block_never_relayed, unpaid_transfer_is_credited,
}
use utxo_block_emulator.Pbft.Modules.Behind.{
  incomplete_answer_skips_blocks, broker_answer_skips_blocks,
}
use utxo_block_emulator.Pbft.Modules.RawBroker.{
  raw_broker_mod, broker_block, broker_info_of, handle_broker_sequence, is_broker2_tx,
}
use utxo_block_emulator.Pbft.Modules.Brokered.{
  seq_id_of, is_other, is_done, is_first_half, broker_block-sends,
}
use utxo_block_emulator.Examples.Chains.{
  alice, bob, home, payment, cross, unpayable, accounts, partition, start, env, chain, top, header,
}

program : Unit {0}
unfolding lookup insert get_or bytes_beq get_partition_map addr_to_shard parse_digits hex_digit
program = tt

abbrev encode : Block → Bytes
encode b = b.hash

abbrev decode : Bytes → Option Block
decode bytes = some top

abbrev now : Node (BlockChain env) → ℕ
now n = 7

abbrev request : Request
request = record { request_type = block_request; content = codes "block"; req_time = 3 }

abbrev get_digest : Request → Bytes
get_digest r = r.content

-- The main node of shard 0, of four nodes, which holds a request.
abbrev node : Node (BlockChain env)
node = record (new_pbft_node 0 0 4 0 (chain 0 []) []) {
  request_pool = (codes "block", request) ∷ [];
}

abbrev vote : Prepare
vote = record {
  digest = codes "block";
  seq_id = 1;
  sender_node = record { node_id = 1; shard_id = 0; ip_addr = [] };
}

abbrev outcome : {A B : Type 0} → A → B → Outcome (A × B) → A × B
outcome a b (ok r) = r
outcome a b _ = (a, b)

-- Three copies of one vote.
abbrev three : List Event
three = receives (prepare vote) ∷ receives (prepare vote) ∷ receives (prepare vote) ∷ []

abbrev voted : Node (BlockChain env) × List (Sent RelayOut)
voted = outcome node [] (run get_digest (raw_relay_mod env encode decode now) three node)

votes_run : run get_digest (raw_relay_mod env encode decode now) three node ≡ ok voted
unfolding program run step handle_message handle_prepare accept_prepare try_commit set_2d_map
    confirm count new_pbft_node
votes_run = refl

framed : IsFramed (raw_relay_mod env encode decode now)
framed = raw_relay_mod-IsFramed env encode decode now

run-commits_once_example : commits (codes "block") voted.1 ≤ 1
run-commits_once_example =
    run-commits_once get_digest (raw_relay_mod env encode decode now) framed (codes "block") three
      node voted.0 voted.1 votes_run

-- A request for a height that the fresh node has not reached.
abbrev fresh_node : Node (BlockChain env)
fresh_node = new_pbft_node 0 0 4 0 (chain 0 []) []

abbrev late : List Event
late =
    receives (pre_prepare (record { request_msg = request; digest = codes "block"; seq_id = 9 }))
    ∷ []

abbrev waiting : Node (BlockChain env) × List (Sent RelayOut)
waiting =
    outcome fresh_node [] (run get_digest (raw_relay_mod env encode decode now) late fresh_node)

late-run : run get_digest (raw_relay_mod env encode decode now) late fresh_node ≡ ok waiting
unfolding program run step handle_message handle_pre_prepare new_pbft_node
late-run = refl

fresh_pool :
    (d : Bytes) (r : Request) → lookup d fresh_node.request_pool ≡ some r → get_digest r ≡ d
unfolding lookup new_pbft_node
fresh_pool d r found = cc

late_stored : lookup (codes "block") waiting.0.request_pool ≡ some request
unfolding program run step handle_message handle_pre_prepare new_pbft_node
late_stored = refl

run-keeps_digests_example : get_digest request ≡ codes "block"
run-keeps_digests_example =
    run-keeps_digests get_digest (raw_relay_mod env encode decode now) framed late fresh_node
      waiting.0 waiting.1 fresh_pool late-run (codes "block") request late_stored

-- Two blocks from height 5 on.
abbrev two_old : List Request
two_old =
    request ∷ record { request_type = block_request; content = codes "next"; req_time = 4 } ∷ []

collect_old-store_old_example :
    map get_digest (
      collect_old get_digest
        (raw_relay_mod env encode decode now)
        2
        5
        (store_old get_digest (raw_relay_mod env encode decode now) 5 two_old node))
    ≡ map get_digest two_old
collect_old-store_old_example =
    collect_old-store_old get_digest (raw_relay_mod env encode decode now) 5 two_old node
      (omega arith)

abbrev crossing : Block
crossing = record { header = header 1; body = payment ∷ cross ∷ []; utxo = []; hash = 1 ∷ [] }

relay_block-sends_example :
    relay_block env encode decode now request crossing node
    ≡ ok (
      record node {
        cur_chain = record node.cur_chain {
          tx_pool = record node.cur_chain.tx_pool { relay_pool = none };
        };
      },
      map (relay_of home node.shard_id node.sequence_id crossing.body) (
            keep
              (is_target home node.shard_id crossing.body)
              (shards_from node.cur_chain.config.shard_nums 0))
          ++ (block_info (report_of env encode decode now home request crossing.body node) ∷ []),
    )
unfolding program new_pbft_node
relay_block-sends_example =
    relay_block-sends env encode decode now home request crossing node (refl, (refl, tt))

unpayable-IsUnpaid : IsUnpaid home 0 1 (table accounts (pos 100) start.0) unpayable
unfolding program
unpayable-IsUnpaid = record {
  first_hand = refl;
  not_brokered = refl;
  sender = refl;
  recipient = refl;
  apart = λ e. omega (arith, e);
  unpaid = refl;
}

abbrev sorting : Sorted
sorting = record {
  pool = record { tx_queue = []; relay_pool = some [] };
  relay1_txs = [];
  tx_excuted = [];
}

unpaid_transfer_is_credited_example :
    (t t' : accounts.Trie × ℕ) × (handle_txs accounts partition (pos 100) 0 0 (unpayable ∷ []) start
      ≡ ok t)
    × (table accounts (pos 100) t.0 ≡ table accounts (pos 100) start.0)
    × (sort_tx partition 0 unpayable sorting
        ≡ ok (record sorting {
          pool = record sorting.pool {
            relay_pool = some (add_relay_map (relayed_tx unpayable) 1 []);
          };
          relay1_txs = sorting.relay1_txs ++ (relayed_tx unpayable ∷ []);
        }))
    × (handle_txs accounts partition (pos 100) 1 0 (relayed_tx unpayable ∷ []) start ≡ ok t')
    × (table accounts (pos 100) t'.0 unpayable.recipient
        ≡ table accounts (pos 100) start.0 unpayable.recipient +ℤ unpayable.value)
unfolding program
unpaid_transfer_is_credited_example =
    unpaid_transfer_is_credited home 0 1 unpayable accounts partition (pos 100) start start sorting
      [] (refl, refl) unpayable-IsUnpaid refl

-- A UTXO transaction to another shard.
abbrev utxo_cross : UtxoTransaction
utxo_cross = record {
  tx_id = codes "t";
  vin = record { prev_tx_id = codes "p"; index = pos 0; signature = []; pub_key = alice } ∷ [];
  vout = record { value = pos 5; pubkey_hash = bob } ∷ [];
  nonce = 0;
  time = 0;
  tx_hash = codes "t";
  relayed = false;
  recipient = bob;
}

abbrev utxo_block : Block
utxo_block = record { header = header 1; body = []; utxo = utxo_cross ∷ []; hash = 1 ∷ [] }

abbrev relayed : Node (BlockChain env) × List RelayOut
relayed = outcome node [] (relay_utxo_block env encode decode now request utxo_block node)

relays : relay_utxo_block env encode decode now request utxo_block node ≡ ok relayed
unfolding program new_pbft_node relay_utxo_block sort_utxos sort_utxo relay_utxo send_utxo_relays
    is_coinbase is_coinbase_of add_relay_tx add_relay_map clear_relay_pool
relays = refl

empty_pool : relay_map node.cur_chain.tx_pool ≡ []
unfolding new_pbft_node
empty_pool = refl

utxo_block_never_relayed_example :
    (info : BlockInfoMsg) × (relayed.1 ≡ block_info info ∷ [])
    × (relayed.0.cur_chain.utxo_tx_pool.relay_pool ≡ none)
utxo_block_never_relayed_example =
    utxo_block_never_relayed env encode decode now request utxo_block node relayed.0 relayed.1
      empty_pool relays

-- An answer for the heights 1 to 3 that holds one request.
abbrev answer : SendOldMessage
answer = record {
  seq_start_height = 1;
  seq_end_height = 3;
  old_request = request ∷ [];
  sender_node = record { node_id = 0; shard_id = 0; ip_addr = [] };
}

abbrev asking : Node (BlockChain env)
asking = record node { ask_for_lock = true }

abbrev answered : Node (BlockChain env) × List (Sent RelayOut)
answered =
    outcome node []
      (handle_send_old_seq get_digest (raw_relay_mod env encode decode now) answer asking)

answers :
    handle_send_old_seq get_digest (raw_relay_mod env encode decode now) answer asking ≡ ok answered
unfolding program new_pbft_node handle_send_old_seq handle_sequence store_old prepare_pending
    release_ask
answers = refl

incomplete_answer_skips_blocks_example :
    (answered.0.cur_chain ≡ asking.cur_chain)
    × (answered.0.sequence_id ≡ add_u64 answer.seq_end_height 1)
incomplete_answer_skips_blocks_example =
    incomplete_answer_skips_blocks env encode decode now get_digest answer asking answered.0
      answered.1 refl answers

-- An answer that holds the request of its one height.
abbrev honest : SendOldMessage
honest = record answer { seq_end_height = 1 }

abbrev broker_answered : Node (BlockChain env) × List (Sent RelayOut)
broker_answered =
    outcome node []
      (handle_send_old_seq get_digest (raw_broker_mod env encode decode now) honest asking)

broker_answers :
    handle_send_old_seq get_digest (raw_broker_mod env encode decode now) honest asking
    ≡ ok broker_answered
unfolding program new_pbft_node handle_send_old_seq handle_broker_sequence store_old prepare_pending
    release_ask
broker_answers = refl

broker_answer_skips_blocks_example :
    (broker_answered.0.cur_chain ≡ asking.cur_chain)
    × (broker_answered.0.sequence_id ≡ add_u64 honest.seq_end_height 1)
broker_answer_skips_blocks_example =
    broker_answer_skips_blocks env encode decode now get_digest honest asking broker_answered.0
      broker_answered.1 (omega arith) (omega arith) (omega arith) (omega arith) broker_answers

-- A transfer from alice to bob by way of carol, in its two halves, and one that needs no broker.
abbrev brokered : Block
brokered = record top {
  body =
      record payment { original_sender = alice; final_recipient = bob; raw_tx_hash = codes "raw" }
      ∷ record cross { original_sender = alice; final_recipient = bob; raw_tx_hash = codes "raw" }
      ∷ payment
      ∷ [];
}

broker_block-sends_example :
    broker_block env encode decode now request brokered node
    ≡ map (seq_id_of 0 node.sequence_id) (keep (is_other 0) (shards_from 4 0))
      ++ (block_info (
            broker_info_of env encode decode now 0 request brokered
              (record {
                tx_excuted = keep is_done brokered.body;
                broker1_txs = keep is_first_half brokered.body;
                broker2_txs = keep is_broker2_tx brokered.body;
              })
              node)
          ∷ [])
unfolding new_pbft_node
broker_block-sends_example = broker_block-sends env encode decode now request brokered node
