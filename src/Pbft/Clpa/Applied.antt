-- ===== src/Pbft/Clpa/Applied.antt =====
-- consensus_shard/pbft_all/accountTransfer_module.go, `accountTransfer_do`: a node that commits a partition block.
use utxo_block_emulator.Base.{
  ℕ, ◌≡◌, ◌≢◌, refl, ap, ◌∙◌, subst, arith, List, [], ◌∷◌, none, some, All, length, map, Bytes,
  bytes_eq, ◌==◌, Bool-cases, inl, inr, eq_iff,
}
use utxo_block_emulator.Base.GoMap
use utxo_block_emulator.Base.GoMap.{GoMap, lookup-insert}
use utxo_block_emulator.Base.Outcome.{
  ok, Yields, Yields-after, Ensures, done, Ensures-after, Ensures-eq,
}
use utxo_block_emulator.Core.Account.{AccountState}
use utxo_block_emulator.Core.Block.{Block, BlockHeader}
use utxo_block_emulator.Chain.Storage.{store_block}
use utxo_block_emulator.Chain.Ledger.{account_or_init, get_partition_map}
use utxo_block_emulator.Chain.Blockchain.{
  Env, BlockChain, shard_of_addr, append_block, update_partition_map,
}
use utxo_block_emulator.Chain.Blockchain.Accounts.{
  add_accounts, put_and_commit, fetch_accounts, assigned, fetch-add_accounts,
}
use utxo_block_emulator.Pbft.Clpa.{AccountTransferMsg, ClpaNode}
use utxo_block_emulator.Pbft.Clpa.Transfer.{update_partition, account_transfer_do}
use utxo_block_emulator.Pbft.Clpa.Fetched.{IsMap}
use utxo_block_emulator.Pbft.Clpa.Selected.{All-map}

abbrev inserts : GoMap Bytes ℕ → GoMap Bytes ℕ → GoMap Bytes ℕ
inserts [] pm = pm
inserts ((key, val) ∷ rest) pm = inserts rest (GoMap.insert key val pm)

lookup-inserts_kept :
    (m pm : GoMap Bytes ℕ) (k : Bytes)
    → GoMap.lookup k m ≡ none
    → GoMap.lookup k (inserts m pm) ≡ GoMap.lookup k pm
unfolding GoMap.lookup
lookup-inserts_kept [] pm k h = refl
lookup-inserts_kept ((key, val) ∷ rest) pm k h = elim (Bool-cases (key == k)) [
  | inl e ↦ absurd (ground (arith, (rw (e, GoMap.lookup) at h)))
  | inr e ↦
      lookup-inserts_kept rest (GoMap.insert key val pm) k (rw (e, GoMap.lookup) at h)
      ∙ lookup-insert key k val pm
      ∙ rw e refl
]

lookup-inserts :
    (m pm : GoMap Bytes ℕ) (k : Bytes) (v : ℕ)
    → IsMap m
    → GoMap.lookup k m ≡ some v
    → GoMap.lookup k (inserts m pm) ≡ some v
unfolding GoMap.lookup
lookup-inserts [] pm k v _ h = cc
lookup-inserts ((key, val) ∷ rest) pm k v (fresh, unique) h = elim (Bool-cases (key == k)) [
  | inl e ↦
      lookup-inserts_kept rest (GoMap.insert key val pm) k
        (subst (λ x. GoMap.lookup x rest ≡ none) ((eq_iff key k).0 e) fresh)
      ∙ lookup-insert key k val pm
      ∙ rw e (rw (e, GoMap.lookup) at h)
  | inr e ↦ lookup-inserts rest (GoMap.insert key val pm) k v unique (rw (e, GoMap.lookup) at h)
]

module _ (E : Env) where
  update_partition-inserts :
      (m : GoMap Bytes ℕ) (bc : BlockChain E)
      → update_partition E m bc ≡ record bc { partition_map = inserts m bc.partition_map }
  unfolding update_partition update_partition_map
  update_partition-inserts [] bc = refl
  update_partition-inserts ((key, val) ∷ rest) bc =
      update_partition-inserts rest
        (record bc { partition_map = GoMap.insert key val bc.partition_map })

  append_block-partition :
      (b : Block) (bc : BlockChain E)
      → Ensures (λ c. c.partition_map ≡ bc.partition_map) (append_block E b bc)
  unfolding append_block
  append_block-partition b bc =
      Ensures-after (store_block E.buckets b bc.storage) _ (λ s. done refl)

  add_accounts-partition :
      (ac : List Bytes) (states : List AccountState) (bc : BlockChain E)
      → Ensures (λ c. c.partition_map ≡ bc.partition_map) (add_accounts E ac states bc)
  unfolding add_accounts
  add_accounts-partition [] states bc = append_block-partition _ bc
  add_accounts-partition (a ∷ ac) states bc =
      Ensures-after (put_and_commit E (a ∷ ac) states bc) _
        (λ r. append_block-partition _ (record bc { trie_db = r.1 }))

  shard_of_addr-inserts :
      (m : GoMap Bytes ℕ) (bc c : BlockChain E) (k : Bytes) (v : ℕ)
      → c.partition_map ≡ inserts m bc.partition_map
      → IsMap m
      → GoMap.lookup k m ≡ some v
      → shard_of_addr E c k ≡ ok v
  unfolding get_partition_map
  shard_of_addr-inserts m bc c k v e unique h =
      rw (ap (GoMap.lookup k) e ∙ lookup-inserts m bc.partition_map k v unique h, get_partition_map)
        refl

  -- A node commits a partition block whose map names no account twice and puts every account that comes
  -- with it into the node's shard, with a state for each, and at least one whose balance and nonce are not
  -- what its trie holds: where no block has an empty hash and the state root is in its trie database, it
  -- does so. Each account of the map is then in the shard that the map gives; a fetch finds the accounts
  -- that came with the balances and the nonces that came, and the others as they were; and the node is in
  -- the round that the block names.
  pub account_transfer_do-moves_here :
      (n : ClpaNode E) (atm : AccountTransferMsg) (a : Bytes) (ac addrs : List Bytes)
      (st : E.accounts.Trie) (changed : Bytes)
      → atm.addrs ≡ a ∷ ac
      → IsMap atm.modified_map
      → All (λ k. GoMap.lookup k atm.modified_map ≡ some n.cur_chain.chain.config.shard_id) (a ∷ ac)
      → length (a ∷ ac) ≡ length atm.account_state
      → ((h : BlockHeader) → E.hash_header h ≢ [])
      → E.accounts.open_at n.cur_chain.chain.trie_db
          n.cur_chain.chain.current_block.header.state_root
        ≡ some st
      → assigned (a ∷ ac) atm.account_state changed (E.accounts.get st changed)
        ≢ E.accounts.get st changed
      → Yields
          (λ r.
            ((k : Bytes) (v : ℕ)
              → GoMap.lookup k atm.modified_map ≡ some v
              → shard_of_addr E r.cur_chain.chain k ≡ ok v)
            × (fetch_accounts E addrs r.cur_chain.chain
                ≡ ok (
                    map
                      (λ k.
                        account_or_init n.cur_chain.chain.config.init_balance 0
                          (assigned (a ∷ ac) atm.account_state k (E.accounts.get st k)))
                      addrs))
            × (r.cur_chain.cdm.account_transfer_round ≡ atm.at_id))
          (account_transfer_do E atm n)
  unfolding account_transfer_do
  account_transfer_do-moves_here n atm a ac addrs st changed e unique moved l hashed opened
        differs =
      let bc = n.cur_chain.chain in
      let placed : BlockChain E = record bc {
        partition_map = inserts atm.modified_map bc.partition_map;
      } in
      let here : All (λ k. shard_of_addr E placed k ≡ ok bc.config.shard_id) (a ∷ ac) =
        All-map (λ k. GoMap.lookup k atm.modified_map ≡ some bc.config.shard_id)
          (λ k. shard_of_addr E placed k ≡ ok bc.config.shard_id) (a ∷ ac)
          (λ k h.
            shard_of_addr-inserts atm.modified_map bc placed k bc.config.shard_id refl unique h)
          moved in
      let (c, made, found) =
        fetch-add_accounts E a ac addrs atm.account_state placed st changed hashed opened here l
          differs in
      Yields-after
        (add_accounts E atm.addrs atm.account_state (update_partition E atm.modified_map bc)) _
        (ap (λ x. add_accounts E x atm.account_state (update_partition E atm.modified_map bc)) e
          ∙ ap (add_accounts E (a ∷ ac) atm.account_state)
              (update_partition-inserts atm.modified_map bc)
          ∙ made)
        (
          _,
          refl,
          (
            λ k v h.
                shard_of_addr-inserts atm.modified_map bc c k v
                  (Ensures-eq (add_accounts-partition (a ∷ ac) atm.account_state placed) made)
                  unique h,
            found,
            refl,
          ),
        )
