-- ===== src/Pbft/Clpa/Rounds.antt =====
-- consensus_shard/pbft_all/accountTransfer_module.go: what a round of account transfers does with the
-- transactions that wait.
use utxo_block_emulator.Base.{
  ℕ, ◌+◌, ◌<◌, ◌≡◌, ◌≢◌, refl, arith, List, [], ◌∷◌, Bool, true, false, some, All, length, keep,
  Bool-cases, inl, inr, Bytes, bytes_eq, nat_eq, ◌==◌,
}
use utxo_block_emulator.Base.GoMap
use utxo_block_emulator.Base.GoMap.{GoMap}
use utxo_block_emulator.Base.Outcome.{ok, Yields, Yields-bind, Yields-after}
use utxo_block_emulator.Core.Transaction.{Transaction}
use utxo_block_emulator.Chain.Blockchain.{Env, BlockChain, shard_of_addr}
use utxo_block_emulator.Chain.Blockchain.Accounts.{fetch_accounts, get_accounts}
use utxo_block_emulator.Pbft.Clpa.{ClpaNode}
use utxo_block_emulator.Pbft.Clpa.Transfer.{
  contains, decisive, last_map, accounts_to_fetch, send_accounts_and_txs,
}
use utxo_block_emulator.Pbft.Clpa.Moves.{send_to_shards-counts, send_to_shards-IsFor, left-IsClear}
use utxo_block_emulator.Pbft.Clpa.Selected.{sent_txs, IsFor, All-map}
use utxo_block_emulator.Pbft.Clpa.Fetched.{IsMap, Leaving, accounts_to_fetch-Leaving}

lookup-IsWithin :
    (n : ℕ) (m : GoMap Bytes ℕ) (a : Bytes) (v : ℕ)
    → All (λ e. e.1 < n) m
    → GoMap.lookup a m ≡ some v
    → v < n
unfolding GoMap.lookup
lookup-IsWithin n [] a v _ e = cc
lookup-IsWithin n ((k, w) ∷ m) a v (h, hs) e = elim (Bool-cases (k == a)) [
  | inl t ↦ ground (arith, h, rw (t, GoMap.lookup) at e)
  | inr t ↦ lookup-IsWithin n m a v hs (rw (t, GoMap.lookup) at e)
]

module _ (E : Env) where
  pub fetch_accounts-length :
      (addrs : List Bytes) (bc : BlockChain E) (st : E.accounts.Trie)
      → E.accounts.open_at bc.trie_db bc.current_block.header.state_root ≡ some st
      → Yields (λ states. length addrs ≡ length states) (fetch_accounts E addrs bc)
  unfolding fetch_accounts get_accounts
  fetch_accounts-length addrs bc st opened = (_, rw opened refl, length-get_accounts addrs)
    where
      length-get_accounts :
          (addrs : List Bytes)
          → length addrs
            ≡ length (
                get_accounts E.accounts
                  (shard_of_addr E bc)
                  bc.config.shard_id
                  bc.config.init_balance
                  addrs
                  st)
      length-get_accounts [] = refl
      length-get_accounts (a ∷ addrs) = omega (arith, length-get_accounts addrs)

  abbrev pub queue_of : ClpaNode E → List Transaction
  queue_of n = n.cur_chain.chain.tx_pool.tx_queue

  -- The account moves from this shard to another one.
  abbrev pub IsLeaving : GoMap Bytes ℕ → ClpaNode E → Bytes → Type 0
  IsLeaving m n a =
      (v : ℕ) × (GoMap.lookup a m ≡ some v)
      × (v ≢ n.shard_id)
      × (shard_of_addr E n.cur_chain.chain a ≡ ok n.shard_id)

  stays_clear :
      (m : GoMap Bytes ℕ) (n : ClpaNode E) (addrs : List Bytes) (tx : Transaction)
      → Leaving (shard_of_addr E n.cur_chain.chain) n.shard_id m addrs
      → contains addrs (decisive tx) ≡ false
      → IsLeaving m n (decisive tx)
      → ⊥
  stays_clear m n addrs tx h clear (v, l, other, here) =
      ground (arith, h.all (decisive tx) v l other here, clear)

  -- With a map of shards that the node has received, of accounts whose present shard is known, and a
  -- state root that its trie database has, `sendAccounts_and_Txs` comes to an end. Of each kind of
  -- transaction, the queue that is left and the messages together hold as many as the queue did; every
  -- transaction in a message is decided by an account (its sender, or its recipient if it was relayed)
  -- that the map puts into the message's shard; and none that is left is decided by an account that
  -- leaves this shard.
  pub send_accounts_and_txs-moves :
      (n : ClpaNode E) (m : GoMap Bytes ℕ) (st : E.accounts.Trie)
      → last_map n.cur_chain.cdm.modified_map ≡ ok m
      → IsMap m
      → All (λ e. e.1 < n.cur_chain.chain.config.shard_nums) m
      → All (λ e. Yields (λ _. Unit {0}) (shard_of_addr E n.cur_chain.chain e.0)) m
      → E.accounts.open_at n.cur_chain.chain.trie_db
          n.cur_chain.chain.current_block.header.state_root
        ≡ some st
      → Yields
          (λ r.
            ((p : Transaction → Bool)
              → length (keep p (queue_of n))
                ≡ length (keep p (queue_of r.0)) + length (keep p (sent_txs r.1)))
            × All (IsFor m) r.1
            × All (λ tx. IsLeaving m n (decisive tx) → ⊥) (queue_of r.0))
          (send_accounts_and_txs E n)
  unfolding send_accounts_and_txs GoMap.get_or
  send_accounts_and_txs-moves n m st last unique within known opened =
      Yields-after (last_map n.cur_chain.cdm.modified_map) _ last (
        Yields-bind (accounts_to_fetch (shard_of_addr E n.cur_chain.chain) n.shard_id m) _
          (accounts_to_fetch-Leaving (shard_of_addr E n.cur_chain.chain) n.shard_id m unique known)
          (λ addrs leaving.
            Yields-bind (fetch_accounts E addrs n.cur_chain.chain) _
              (fetch_accounts-length addrs n.cur_chain.chain st opened)
              (λ states same. (
                _,
                refl,
                (
                  λ p.
                      send_to_shards-counts m n.shard_id addrs states p
                        n.cur_chain.chain.config.shard_nums 0 (queue_of n),
                  send_to_shards-IsFor m n.shard_id addrs states n.cur_chain.chain.config.shard_nums
                      0 (queue_of n),
                  All-map (λ tx. contains addrs (decisive tx) ≡ false)
                      (λ tx. IsLeaving m n (decisive tx) → ⊥) _
                      (λ tx. stays_clear m n addrs tx leaving)
                      (left-IsClear m n.shard_id addrs states n.cur_chain.chain.config.shard_nums
                        (queue_of n) same (moves_within addrs leaving)),
                ),
              ))))
    where
      moves_within :
          (addrs : List Bytes)
          → Leaving (shard_of_addr E n.cur_chain.chain) n.shard_id m addrs
          → (a : Bytes) → contains addrs a ≡ true
          → (GoMap.get_or a 0 m ≢ n.shard_id)
            × (GoMap.get_or a 0 m < n.cur_chain.chain.config.shard_nums)
      moves_within addrs leaving a t =
          let (v, l, other) = leaving.moves a t in
          rw (l, GoMap.get_or)
            (other, lookup-IsWithin n.cur_chain.chain.config.shard_nums m a v within l)
