-- ===== src/Examples/Chains.antt =====
-- Runs of the ledger and the blockchain object, and each of their theorems at an input.
use utxo_block_emulator.Base.{
  ℕ, ◌≡◌, ◌≢◌, ◌%◌, refl, List, [], ◌∷◌, ◌++◌, map, true, false, none, some, Bytes, bytes_eq,
  bytes_beq, nat_eq, ◌==◌, arith, Bool, ◌&&◌, ◌||◌, not, eq_iff, eq_refl, ap, ◌∙◌,
}
use utxo_block_emulator.Base.Text.{codes}
use utxo_block_emulator.Base.Int.{pos, int_eq, ◌+ℤ◌, ◌-ℤ◌, ◌≤ℤ◌}
use utxo_block_emulator.Base.GoMap.{GoMap, lookup, insert}
use utxo_block_emulator.Base.Outcome.{Outcome, ok, panic, or_panic, ◌>>=◌}
use utxo_block_emulator.Core.Account.{AccountState, deduct, deposit}
use utxo_block_emulator.Core.Block.{Block, BlockHeader}
use utxo_block_emulator.Core.Transaction.{Transaction, unhashed}
use utxo_block_emulator.Core.TxPool.{pack_txs}
use utxo_block_emulator.Utils.{addr_to_shard, parse_digits, hex_digit, hex_value}
use utxo_block_emulator.Chain.TrieDb.{TrieDb, memory_db, memory_update, holds}
use utxo_block_emulator.Chain.TxRoot.{HashTrie}
use utxo_block_emulator.Chain.Storage.{Storage, memory_buckets}
use utxo_block_emulator.Chain.Ledger.{
  account_or_init, get_partition_map, handle_txs, handle_tx, transfer, credit, debit,
  credit_if_here, update_status_trie, commit_txs,
}
use utxo_block_emulator.Chain.Ledger.Balances.{table, all_transferred, handle_txs-transfers}
use utxo_block_emulator.Chain.Ledger.Solvency.{total, handle_txs-conserves, handle_txs-nonnegative}
use utxo_block_emulator.Chain.Blockchain.{
  Env, ChainConfig, BlockChain, append_block, generate_block, generate_tx_block,
  get_update_status_trie, is_valid_block, add_block,
}
use utxo_block_emulator.Chain.Blockchain.Genisis.{new_block_chain, chain_at, restart_finds_newest}
use utxo_block_emulator.Chain.Blockchain.Replica.{InSync, block_keeps_sync}
use utxo_block_emulator.Chain.Blockchain.Accounts.{
  add_accounts, fetch_accounts, assigned, plain, fetch-add_accounts, add_accounts_unchanged_panics,
}

-- Two addresses of shard 0 and one of shard 1, of four shards.
abbrev pub alice : Bytes
alice = codes "a0000004"

abbrev pub carol : Bytes
carol = codes "C0000008"

abbrev pub bob : Bytes
bob = codes "b0000001"

abbrev pub home : Bytes → ℕ
home a = hex_value a % 4

abbrev pub payment : Transaction
payment = unhashed alice carol (pos 30) 0

abbrev pub cross : Transaction
cross = unhashed carol bob (pos 5) 1

-- More than the initial balance.
abbrev pub unpayable : Transaction
unpayable = unhashed alice bob (pos 500) 2

-- Whether two states have the same fields, so the same bytes.
abbrev pub same_state : AccountState → AccountState → Bool
same_state a b =
    a.ac_address == b.ac_address
    && a.nonce == b.nonce
    && a.balance == b.balance
    && a.storage_root == b.storage_root
    && a.code_hash == b.code_hash

pub same_state-eq : (a b : AccountState) → same_state a b ≡ true → a ≡ b
same_state-eq a b h =
    let address : a.ac_address ≡ b.ac_address =
      (eq_iff a.ac_address b.ac_address).0 (ground arith) in
    let number : a.nonce ≡ b.nonce = (eq_iff a.nonce b.nonce).0 (ground arith) in
    let amount : a.balance ≡ b.balance = (eq_iff a.balance b.balance).0 (ground arith) in
    let storage : a.storage_root ≡ b.storage_root =
      (eq_iff a.storage_root b.storage_root).0 (ground arith) in
    let code : a.code_hash ≡ b.code_hash = (eq_iff a.code_hash b.code_hash).0 (ground arith) in
    λ i. record {
      ac_address = address i;
      nonce = number i;
      balance = amount i;
      storage_root = storage i;
      code_hash = code i;
    }

same_state-same : (v : AccountState) → same_state v v ≡ true
same_state-same v =
    rw
      (
        eq_refl v.ac_address,
        eq_refl v.nonce,
        eq_refl v.balance,
        eq_refl v.storage_root,
        eq_refl v.code_hash,
      )
      refl

-- Writing what is there does not change the trie.
same_bytes :
    (t : GoMap Bytes AccountState × Bool) (k : Bytes) (v : AccountState)
    → lookup k t.0 ≡ some v
    → (memory_update same_state t k v).1 ≡ t.1
same_bytes (t, b) k v h =
    let found : holds same_state t k v ≡ true =
      ap (λ o. elim o [ none ↦ false | some s ↦ same_state s v ]) h ∙ same_state-same v in
    ap (λ x. b || not x) found ∙ ground arith

abbrev pub accounts : TrieDb AccountState
accounts = memory_db same_state same_state-eq

abbrev pub partition : Bytes → Outcome ℕ
partition = get_partition_map 4 []

abbrev pub start : (GoMap Bytes AccountState × Bool) × ℕ
start = (([], false), 0)

program : Unit {0}
unfolding lookup insert bytes_beq get_partition_map addr_to_shard parse_digits hex_digit
program = tt

handle_txs-transfers_example :
    (s' : accounts.Trie × ℕ) × (handle_txs accounts partition
        (pos 100)
        0
        0
        (payment ∷ cross ∷ unpayable ∷ [])
        start
      ≡ ok s')
    × (table accounts (pos 100) s'.0
        ≡ all_transferred
            (λ a. home a == 0)
            (payment ∷ cross ∷ unpayable ∷ [])
            (table accounts (pos 100) start.0))
unfolding program
handle_txs-transfers_example =
    handle_txs-transfers accounts partition (pos 100) 0 home 0 (payment ∷ cross ∷ unpayable ∷ [])
      start ((refl, refl), ((refl, refl), ((refl, refl), tt)))

handle_txs-conserves_example :
    (s' : accounts.Trie × ℕ) × (handle_txs accounts partition
        (pos 100)
        0
        0
        (payment ∷ unhashed carol alice (pos 400) 1 ∷ [])
        start
      ≡ ok s')
    × (total (alice ∷ carol ∷ []) (table accounts (pos 100) s'.0)
        ≡ total (alice ∷ carol ∷ []) (table accounts (pos 100) start.0))
unfolding program
handle_txs-conserves_example =
    handle_txs-conserves accounts partition (pos 100) 0 home (alice ∷ carol ∷ []) 0
      (payment ∷ unhashed carol alice (pos 400) 1 ∷ []) start ((refl, refl), ((refl, refl), tt))
      ((refl, refl, refl, refl, refl), ((refl, refl, refl, refl, refl), tt))

handle_txs-nonnegative_example :
    (s' : accounts.Trie × ℕ) × (handle_txs accounts partition
        (pos 100)
        0
        0
        (payment ∷ cross ∷ unpayable ∷ [])
        start
      ≡ ok s')
    × ((k : Bytes) → pos 0 ≤ℤ table accounts (pos 100) s'.0 k)
unfolding program
handle_txs-nonnegative_example =
    handle_txs-nonnegative accounts partition (pos 100) 0 home 0 (payment ∷ cross ∷ unpayable ∷ [])
      start ((refl, refl), ((refl, refl), ((refl, refl), tt)))
      (omega arith, (omega arith, (omega arith, tt))) (λ k. omega arith)

-- A chain over memory.
abbrev pub hash_trie : HashTrie
hash_trie = record { Trie = Bytes; empty = []; update = λ k v t. t ++ k; hash = λ t. t }

abbrev pub env : Env
env = record {
  accounts = accounts;
  utxo_accounts = memory_db (λ a b. false) (λ a b h. cc);
  buckets = memory_buckets;
  hash_trie = hash_trie;
  encode_tx = λ tx. tx.tx_hash;
  encode_utxo_tx = λ tx. tx.tx_hash;
  hash_header = λ h. h.number ∷ h.state_root;
  empty_root = 0 ∷ [];
}

abbrev pub config : ℕ → ChainConfig
config node_id = record {
  node_id = node_id;
  shard_id = 0;
  shard_nums = 4;
  block_size = 2;
  shard_num = 4;
  utxo = false;
  init_balance = pos 100;
}

abbrev pub header : ℕ → BlockHeader
header n = record {
  parent_block_hash = [];
  state_root = 0 ∷ [];
  tx_root = [];
  number = n;
  time = 0;
  miner = 0;
}

abbrev pub top : Block
top = record { header = header 0; body = []; utxo = []; hash = 0 ∷ 0 ∷ [] }

abbrev pub storage : Storage memory_buckets
storage = record { blocks = []; headers = []; newest = [] }

abbrev pub chain : ℕ → List Transaction → BlockChain env
chain node_id queue = record {
  config = config node_id;
  trie_db = [] ∷ [];
  utxo_trie_db = none;
  current_block = top;
  storage = storage;
  tx_pool = record { tx_queue = queue; relay_pool = some [] };
  utxo_tx_pool = record { tx_queue = []; relay_pool = some [] };
  partition_map = [];
  utxo_state_root = [];
}

pub hash_header_nonempty : (h : BlockHeader) → env.hash_header h ≢ []
hash_header_nonempty h e = cc

top_hash_nonempty : top.hash ≢ []
top_hash_nonempty e = cc

restart_finds_newest_example :
    (bc' : BlockChain env) × (append_block env top (chain 0 []) ≡ ok bc')
    × (new_block_chain env (chain 0 []).config ([] ∷ []) [] bc'.storage ≡ (
        or_panic (env.accounts.open_at ([] ∷ []) top.header.state_root)
        >>= (λ t. ok (chain_at env (chain 0 []).config ([] ∷ []) none [] bc'.storage top))))
restart_finds_newest_example =
    restart_finds_newest env top (chain 0 []) ([] ∷ []) [] top_hash_nonempty refl

abbrev pub credit_state : AccountState
credit_state = record {
  ac_address = [];
  nonce = 3;
  balance = pos 70;
  storage_root = [];
  code_hash = [];
}

fetch-add_accounts_example :
    (bc' : BlockChain env) × (add_accounts env
        (alice ∷ (carol ∷ []))
        (credit_state ∷ credit_state ∷ [])
        (chain 0 [])
      ≡ ok bc')
    × (fetch_accounts env (alice ∷ bob ∷ []) bc'
        ≡ ok (
            map
              (λ k. account_or_init (chain 0 []).config.init_balance 0 (
                assigned
                  (alice ∷ (carol ∷ []))
                  (credit_state ∷ credit_state ∷ [])
                  k
                  (env.accounts.get ([], false) k)))
              (alice ∷ bob ∷ [])))
unfolding program
fetch-add_accounts_example =
    fetch-add_accounts env alice (carol ∷ []) (alice ∷ bob ∷ []) (credit_state ∷ credit_state ∷ [])
      (chain 0 []) ([], false) alice hash_header_nonempty refl (refl, (refl, tt)) refl
      (λ h. absurd (ground (arith, h)))

-- The chain of a shard that carol has left, and comes back to as she was.
abbrev left : BlockChain env
left = record (chain 0 []) { trie_db = ((carol, plain credit_state) ∷ []) ∷ [] }

add_accounts_unchanged_panics_example :
    add_accounts env (carol ∷ []) (credit_state ∷ []) left ≡ panic
unfolding program
add_accounts_unchanged_panics_example =
    add_accounts_unchanged_panics env carol [] (credit_state ∷ []) left
      ((carol, plain credit_state) ∷ [], false) same_bytes refl (refl, tt) refl (refl, tt)

-- What a run that makes a block gives.
abbrev made : Outcome (Block × BlockChain env) → Block × BlockChain env
made (ok r) = r
made _ = (top, chain 9 [])

abbrev mined : Block × BlockChain env
mined = made (generate_block env 5 (chain 0 (payment ∷ cross ∷ [])))

mines : generate_block env 5 (chain 0 (payment ∷ cross ∷ [])) ≡ ok mined
unfolding program generate_block generate_tx_block get_update_status_trie update_status_trie
    commit_txs handle_txs handle_tx transfer debit credit_if_here credit deduct deposit pack_txs
    ◌+ℤ◌ ◌-ℤ◌
mines = refl

same_chain : InSync env (chain 0 (payment ∷ cross ∷ [])) (chain 2 [])
same_chain = record {
  current_block = refl;
  trie_db = refl;
  partition_map = refl;
  shard_id = refl;
  shard_num = refl;
  init_balance = refl;
}

two_is_not_zero : (chain 2 []).config.node_id ≢ 0
two_is_not_zero e = omega (arith, e)

block_keeps_sync_example :
    (bc₂ bc₂' : BlockChain env) × (is_valid_block env mined.0 (chain 2 []) ≡ true)
    × (add_block env mined.0 mined.1 ≡ ok bc₂)
    × (add_block env mined.0 (chain 2 []) ≡ ok bc₂')
    × (bc₂.current_block ≡ mined.0)
    × InSync env bc₂ bc₂'
block_keeps_sync_example =
    block_keeps_sync env 5 (chain 0 (payment ∷ cross ∷ [])) mined.1 (chain 2 []) mined.0
      hash_header_nonempty refl two_is_not_zero refl refl same_chain mines
