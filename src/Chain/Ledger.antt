-- ===== src/Chain/Ledger.antt =====
-- chain/blockchain.go: `Get_PartitionMap`, and the loop of `GetUpdateStatusTrie` over the transactions.
pub mod Balances
pub mod Solvency
use utxo_block_emulator.Base.{
  ℕ, suc, ◌+◌, List, [], ◌∷◌, Bool, true, false, ◌||◌, Option, none, some, Bytes, bytes_eq, nat_eq,
  ◌==◌, if◌then◌else◌,
}
use utxo_block_emulator.Base.Int.{ℤ, ltb_ℤ}
use utxo_block_emulator.Base.GoMap
use utxo_block_emulator.Base.GoMap.{GoMap}
use utxo_block_emulator.Base.Outcome.{Outcome, ok, or_panic, ◌>>=◌}
use utxo_block_emulator.Core.Account.{AccountState, deduct, deposit}
use utxo_block_emulator.Core.Transaction.{Transaction}
use utxo_block_emulator.Utils.{addr_to_shard}
use utxo_block_emulator.Chain.TrieDb.{TrieDb, commit_nodes}

-- The entry of the map, or the default shard of the address.
unfoldable pub get_partition_map : (shard_num : ℕ) → GoMap Bytes ℕ → Bytes → Outcome ℕ
unfolding addr_to_shard
get_partition_map shard_num pm key = elim (GoMap.lookup key pm) [
  | none ↦ addr_to_shard shard_num key
  | some val ↦ ok val
]

-- An account that is not stored has `params.Init_Balance`; `i` is the transaction's place in the block.
abbrev pub account_or_init : ℤ → ℕ → Option AccountState → AccountState
account_or_init init i none = record {
  ac_address = [];
  nonce = i;
  balance = init;
  storage_root = [];
  code_hash = [];
}
account_or_init init i (some s) = s

-- `partition` is `Get_PartitionMap`, `init` is `params.Init_Balance`.
module _ (D : TrieDb AccountState) (partition : Bytes → Outcome ℕ) (init : ℤ) (shard_id : ℕ) where
  -- `Get_PartitionMap(addr) == ShardID || tx.HasBroker`
  abbrev pub is_here : Bytes → Transaction → Outcome Bool
  is_here addr tx = do p ← partition addr; ok (p == shard_id || tx.has_broker)

  -- The sender's side is skipped for a relayed transaction.
  abbrev pub is_debited : Transaction → Outcome Bool
  is_debited tx = if tx.relayed then ok false else is_here tx.sender tx

  -- The trie, and the number of accounts modified so far.
  unfoldable pub credit : ℕ → Transaction → D.Trie × ℕ → D.Trie × ℕ
  unfolding deposit
  credit i tx (st, cnt) = (
    D.update st tx.recipient (deposit (account_or_init init i (D.get st tx.recipient)) tx.value),
    suc cnt,
  )

  unfoldable pub credit_if_here : ℕ → Transaction → D.Trie × ℕ → Outcome (D.Trie × ℕ)
  unfolding credit
  credit_if_here i tx s = do here ← is_here tx.recipient tx; ok (if here then credit i tx s else s)

  unfoldable pub debit : ℕ → Transaction → D.Trie × ℕ → D.Trie × ℕ
  unfolding deduct
  debit i tx (st, cnt) = (
    D.update st tx.sender (deduct (account_or_init init i (D.get st tx.sender)) tx.value).0,
    suc cnt,
  )

  -- A sender whose balance is too low ends the round.
  unfoldable pub transfer : ℕ → Transaction → Bool → D.Trie × ℕ → Outcome (D.Trie × ℕ)
  unfolding debit credit_if_here
  transfer i tx false s = credit_if_here i tx s
  transfer i tx true (st, cnt) =
      if ltb_ℤ (account_or_init init i (D.get st tx.sender)).balance tx.value
      then ok (st, cnt)
      else credit_if_here i tx (debit i tx (st, cnt))

  unfoldable pub handle_tx : ℕ → Transaction → D.Trie × ℕ → Outcome (D.Trie × ℕ)
  unfolding transfer
  handle_tx i tx s = do d ← is_debited tx; transfer i tx d s

  unfoldable pub handle_txs : ℕ → List Transaction → D.Trie × ℕ → Outcome (D.Trie × ℕ)
  unfolding handle_tx
  handle_txs i [] s = ok s
  handle_txs i (tx ∷ txs) s = do s' ← handle_tx i tx s; handle_txs (suc i) txs s'

  -- The new root, and the database with its nodes. Nothing is written where no account is modified.
  unfoldable pub commit_txs : List Transaction → D.Db → Bytes → Outcome (Bytes × D.Db)
  unfolding handle_txs commit_nodes
  commit_txs txs d root = do
    st ← or_panic (D.open_at d root)
    (st', cnt) ← handle_txs 0 txs (st, 0)
    (if cnt == 0 then ok (root, d) else commit_nodes D d st')

  -- `GetUpdateStatusTrie` on the trie at `root`.
  unfoldable pub update_status_trie : List Transaction → D.Db → Bytes → Outcome (Bytes × D.Db)
  unfolding commit_txs
  update_status_trie [] d root = ok (root, d)
  update_status_trie (tx ∷ txs) d root = commit_txs (tx ∷ txs) d root
