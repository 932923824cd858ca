-- ===== src/Examples/Clpa.antt =====
-- Runs of the CLPA modules of the consensus node, and each of their theorems at an input.
use utxo_block_emulator.Base.{
  ℕ, ◌≡◌, ◌+◌, refl, [], ◌∷◌, map, true, false, Bool, some, All, Bytes, bytes_eq, bytes_beq, nat_eq,
  arith, keep, length,
}
use utxo_block_emulator.Base.Text.{codes}
use utxo_block_emulator.Base.GoMap
use utxo_block_emulator.Base.GoMap.{GoMap, lookup}
use utxo_block_emulator.Base.Outcome.{ok, Yields}
use utxo_block_emulator.Core.Transaction.{Transaction, transaction_timed}
use utxo_block_emulator.Core.TxPool
use utxo_block_emulator.Utils.{addr_to_shard, parse_digits, hex_digit}
use utxo_block_emulator.Chain.Ledger.{get_partition_map, account_or_init}
use utxo_block_emulator.Chain.Blockchain.{shard_of_addr}
use utxo_block_emulator.Chain.Blockchain.Accounts.{fetch_accounts, assigned}
use utxo_block_emulator.Pbft.{new_pbft_node}
use utxo_block_emulator.Pbft.Clpa.{
  AccountTransferMsg, AccountStateAndTx, ClpaNode, new_clpa_data_support, partition_req,
}
use utxo_block_emulator.Pbft.Clpa.Transfer.{
  send_accounts_and_txs, propose_partition, account_transfer_do, decisive,
}
use utxo_block_emulator.Pbft.Clpa.Selected.{sent_txs, IsFor}
use utxo_block_emulator.Pbft.Clpa.Rounds.{queue_of, IsLeaving, send_accounts_and_txs-moves}
use utxo_block_emulator.Pbft.Clpa.Taken.{txs_of, latest_of, paired, propose_partition-takes}
use utxo_block_emulator.Pbft.Clpa.Applied.{account_transfer_do-moves_here}
use utxo_block_emulator.Pbft.ClpaBroker.Transfer.{send_broker_accounts_and_txs}
use utxo_block_emulator.Pbft.ClpaBroker.Moves.{send_broker_accounts_and_txs-keeps}
use utxo_block_emulator.Examples.Chains.{
  alice, bob, carol, payment, cross, unpayable, env, chain, credit_state, hash_header_nonempty,
}

-- The map of a round: alice goes from shard 0 to shard 1, bob from shard 1 to shard 0.
abbrev modified : GoMap Bytes ℕ
modified = (alice, 1) ∷ (bob, 0) ∷ []

-- The main node of shard 0, which has received the map.
abbrev main_node : ClpaNode env
main_node =
    new_pbft_node 0 0 4 0
      (record {
        chain = chain 0 (payment ∷ cross ∷ unpayable ∷ []);
        cdm = record new_clpa_data_support { modified_map = modified ∷ []; partition_on = true };
      })
      []

send_accounts_and_txs-moves_example :
    Yields
      (λ r.
        ((p : Transaction → Bool)
          → length (keep p (queue_of env main_node))
            ≡ length (keep p (queue_of env r.0)) + length (keep p (sent_txs r.1)))
        × All (IsFor modified) r.1
        × All (λ tx. IsLeaving env modified main_node (decisive tx) → ⊥) (queue_of env r.0))
      (send_accounts_and_txs env main_node)
unfolding new_pbft_node new_clpa_data_support lookup bytes_beq get_partition_map addr_to_shard
    parse_digits hex_digit
send_accounts_and_txs-moves_example =
    send_accounts_and_txs-moves env main_node modified ([], false) refl (refl, (refl, tt))
      (omega arith, (omega arith, tt)) ((_, refl, tt), ((_, refl, tt), tt)) refl

-- What shard 1 sends: bob, and one of his transactions.
abbrev from_bob : Transaction
from_bob = record cross { sender = bob; recipient = carol }

abbrev message : AccountStateAndTx
message = record {
  addrs = bob ∷ [];
  account_state = credit_state ∷ [];
  txs = from_bob ∷ [];
  from_shard = 1;
}

abbrev collected : ClpaNode env
collected = record main_node {
  cur_chain = record main_node.cur_chain {
    cdm = record main_node.cur_chain.cdm {
      account_state_tx = (1, message) ∷ [];
      collect_over = true;
    };
  };
}

abbrev encode_atm : AccountTransferMsg → Bytes
encode_atm atm = codes "partition"

abbrev clock : ℕ → ℕ
clock i = i + 10

propose_partition-takes_example :
    Yields
      (λ r.
        (r.0.cur_chain.chain.tx_pool
          ≡ TxPool.add_txs_to_pool clock
              (txs_of ((1, message) ∷ []))
              collected.cur_chain.chain.tx_pool)
        × ((atm : AccountTransferMsg) × (r.1
              ≡ record { request_type = partition_req; content = encode_atm atm; req_time = 7 })
            × (atm.modified_map ≡ modified)
            × (atm.at_id ≡ length collected.cur_chain.cdm.modified_map)
            × (length atm.addrs ≡ length atm.account_state)
            × ((k : Bytes)
                → lookup k (paired atm.addrs atm.account_state)
                  ≡ latest_of
                      ((1, message) ∷ [])
                      k
                      (lookup k collected.cur_chain.cdm.received_new_account_state))))
      (propose_partition env encode_atm clock 7 collected)
unfolding new_pbft_node new_clpa_data_support GoMap.get_or lookup bytes_beq
propose_partition-takes_example =
    propose_partition-takes env encode_atm clock 7 collected modified refl refl
      ((refl, (refl, tt)), tt)

abbrev block : AccountTransferMsg
block = record {
  modified_map = modified;
  addrs = bob ∷ [];
  account_state = credit_state ∷ [];
  at_id = 1;
}

account_transfer_do-moves_here_example :
    Yields
      (λ r.
        ((k : Bytes) (v : ℕ)
          → lookup k block.modified_map ≡ some v
          → shard_of_addr env r.cur_chain.chain k ≡ ok v)
        × (fetch_accounts env (bob ∷ carol ∷ []) r.cur_chain.chain
            ≡ ok (
                map
                  (λ k.
                    account_or_init collected.cur_chain.chain.config.init_balance 0
                      (assigned (bob ∷ []) (credit_state ∷ []) k (env.accounts.get ([], false) k)))
                  (bob ∷ carol ∷ [])))
        × (r.cur_chain.cdm.account_transfer_round ≡ 1))
      (account_transfer_do env block collected)
unfolding new_pbft_node new_clpa_data_support lookup bytes_beq
account_transfer_do-moves_here_example =
    account_transfer_do-moves_here env collected block bob [] (bob ∷ carol ∷ []) ([], false) bob
      refl (refl, (refl, tt)) (refl, tt) refl hash_header_nonempty refl
      (λ h. absurd (ground (arith, h)))

send_broker_accounts_and_txs-keeps_example :
    Yields
      (λ r.
        (p : Transaction → Bool)
        → length (keep p (queue_of env main_node))
          ≡ length (keep p (queue_of env r.0))
            + length (keep p r.2)
            + length (keep p (sent_txs r.1)))
      (send_broker_accounts_and_txs env main_node)
unfolding new_pbft_node new_clpa_data_support lookup bytes_beq get_partition_map addr_to_shard
    parse_digits hex_digit
send_broker_accounts_and_txs-keeps_example =
    send_broker_accounts_and_txs-keeps env main_node modified ([], false) refl (refl, (refl, tt))
      ((_, refl, tt), ((_, refl, tt), tt)) refl
