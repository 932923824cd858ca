-- ===== src/Chain/Blockchain/Accounts.antt =====
-- chain/blockchain.go: `AddAccounts` and `FetchAccounts`, which move accounts between shards.
use utxo_block_emulator.Base.{
  ℕ, List, [], ◌∷◌, map, Option, some, ◌≡◌, ◌≢◌, refl, ap, ◌∙◌, Bytes, bytes_eq, nat_eq, ◌==◌,
  if◌then◌else◌, length, All, arith, eq_refl, sym, true, false, Bool-cases, inl, inr,
}
use utxo_block_emulator.Base.Int.{ℤ}
use utxo_block_emulator.Base.Outcome.{Outcome, ok, panic, or_panic, ◌>>=◌}
use utxo_block_emulator.Core.Account.{AccountState}
use utxo_block_emulator.Core.Block.{Block, BlockHeader, new_block}
use utxo_block_emulator.Chain.TrieDb.{TrieDb, commit_nodes, commit_nodes-ok, update-held}
use utxo_block_emulator.Chain.TxRoot.{get_tx_tree_root}
use utxo_block_emulator.Chain.Storage.{store_block_lem}
use utxo_block_emulator.Chain.Ledger.{account_or_init}
use utxo_block_emulator.Chain.Blockchain.{
  Env, BlockChain, shard_of_addr, next_header, with_hash, append_block,
}

-- A balance and a nonce: the fields that a new state is made with.
abbrev pub plain : AccountState → AccountState
plain s = record {
  ac_address = [];
  nonce = s.nonce;
  balance = s.balance;
  storage_root = [];
  code_hash = [];
}

module _ (D : TrieDb AccountState) (partition : Bytes → Outcome ℕ) (shard_id : ℕ) where
  -- The loop over the addresses; `as[i]` is read for an address of this shard only, and panics where
  -- there are too few states.
  unfoldable pub put_accounts : List Bytes → List AccountState → D.Trie → Outcome D.Trie
  put_accounts [] states st = ok st
  put_accounts (addr ∷ ac) [] st = do
    p ← partition addr
    if p == shard_id then panic else put_accounts ac [] st
  put_accounts (addr ∷ ac) (s ∷ states) st = do
    p ← partition addr
    put_accounts ac states (if p == shard_id then D.update st addr (plain s) else st)

  unfoldable pub get_accounts : (init : ℤ) → List Bytes → D.Trie → List AccountState
  get_accounts init [] st = []
  get_accounts init (addr ∷ addrs) st =
      account_or_init init 0 (D.get st addr) ∷ get_accounts init addrs st

module _ (E : Env) where
  -- The trie that the accounts are written to, committed; the header's root is the new one. (The
  -- database's `Commit` is called with the old root, so that the new nodes stay in its cache.)
  unfoldable pub put_and_commit :
      List Bytes → List AccountState → BlockChain E → Outcome (Bytes × E.accounts.Db)
  unfolding put_accounts commit_nodes
  put_and_commit ac states bc = do
    st ← or_panic (E.accounts.open_at bc.trie_db bc.current_block.header.state_root)
    st' ← put_accounts E.accounts (shard_of_addr E bc) bc.config.shard_id ac states st
    commit_nodes E.accounts bc.trie_db st'

  -- The block of no transactions that carries the new root; its time is Go's zero time.
  abbrev pub accounts_block : Bytes → BlockChain E → Block
  accounts_block root bc =
      with_hash E
        (new_block (next_header E 0 root (get_tx_tree_root E.hash_trie E.encode_tx []) bc) [] [])

  unfoldable pub add_accounts :
      List Bytes → List AccountState → BlockChain E → Outcome (BlockChain E)
  unfolding put_and_commit append_block get_tx_tree_root new_block
  add_accounts [] states bc =
      append_block E (accounts_block bc.current_block.header.state_root bc) bc
  add_accounts (a ∷ ac) states bc = do
    (root, d) ← put_and_commit (a ∷ ac) states bc
    append_block E (accounts_block root bc) (record bc { trie_db = d })

  unfoldable pub fetch_accounts : List Bytes → BlockChain E → Outcome (List AccountState)
  unfolding get_accounts
  fetch_accounts addrs bc = do
    st ← or_panic (E.accounts.open_at bc.trie_db bc.current_block.header.state_root)
    ok (
        get_accounts E.accounts (shard_of_addr E bc) bc.config.shard_id bc.config.init_balance addrs
          st)

-- The state that a list of addresses and one of states assign to an address, the last one where it
-- stands several times, or else the one it had.
abbrev pub assigned :
    List Bytes → List AccountState → Bytes → Option AccountState → Option AccountState
assigned [] states k old = old
assigned (a ∷ ac) [] k old = old
assigned (a ∷ ac) (s ∷ states) k old = assigned ac states k (if a == k then some (plain s) else old)

module _ (D : TrieDb AccountState) where
  -- Every address is in the trie with the state that is listed for it.
  abbrev pub IsHeld : D.Trie → List Bytes → List AccountState → Type 0
  IsHeld st [] states = Unit
  IsHeld st (a ∷ ac) [] = Unit
  IsHeld st (a ∷ ac) (s ∷ states) = (D.get st a ≡ some (plain s)) × IsHeld st ac states

  IsHeld-same :
      (st st' : D.Trie) (ac : List Bytes) (states : List AccountState)
      → ((k : Bytes) → D.get st' k ≡ D.get st k)
      → IsHeld st ac states
      → IsHeld st' ac states
  IsHeld-same st st' [] states same h = tt
  IsHeld-same st st' (a ∷ ac) [] same h = tt
  IsHeld-same st st' (a ∷ ac) (s ∷ states) same (e, h) =
      (same a ∙ e, IsHeld-same st st' ac states same h)

module _ (D : TrieDb AccountState) (partition : Bytes → Outcome ℕ) (shard_id : ℕ) where
  put_accounts_lem :
      (ac : List Bytes) (states : List AccountState) (st : D.Trie)
      → All (λ a. partition a ≡ ok shard_id) ac
      → length ac ≡ length states
      → (st' : D.Trie) × (put_accounts D partition shard_id ac states st ≡ ok st')
        × ((k : Bytes) → D.get st' k ≡ assigned ac states k (D.get st k))
        × (D.is_dirty st' ≡ false
            → (D.is_dirty st ≡ false) × ((k : Bytes) → D.get st' k ≡ D.get st k))
  unfolding put_accounts
  put_accounts_lem [] states st h l = (st, refl, λ k. refl, λ clean. (clean, λ k. refl))
  put_accounts_lem (a ∷ ac) [] st h l = absurd (omega (arith, l))
  put_accounts_lem (a ∷ ac) (s ∷ states) st (e, h) l =
      let (st', made, same, clean) =
        put_accounts_lem ac states (D.update st a (plain s)) h (omega (arith, l)) in
      (
        st',
        rw (e, eq_refl shard_id) made,
        λ k. same k ∙ ap (assigned ac states k) (D.get-update st a k (plain s)),
        λ c.
            let (clean', kept) = clean c in
            let (before, held) = D.update-is_dirty st a (plain s) clean' in
            (before, λ k. kept k ∙ update-held D st a (plain s) held k),
      )

  -- Writing what is there leaves the trie as clean as it was, if equal states have equal bytes.
  put_accounts-clean :
      ((t : D.Trie) (k : Bytes) (v : AccountState)
        → D.get t k ≡ some v
        → D.is_dirty (D.update t k v) ≡ D.is_dirty t)
      → (ac : List Bytes) (states : List AccountState) (st : D.Trie)
      → All (λ a. partition a ≡ ok shard_id) ac
      → length ac ≡ length states
      → IsHeld D st ac states
      → (st' : D.Trie) × (put_accounts D partition shard_id ac states st ≡ ok st')
        × (D.is_dirty st' ≡ D.is_dirty st)
  unfolding put_accounts
  put_accounts-clean bytes [] states st here l h = (st, refl, refl)
  put_accounts-clean bytes (a ∷ ac) [] st here l h = absurd (omega (arith, l))
  put_accounts-clean bytes (a ∷ ac) (s ∷ states) st (e, here) l (found, h) =
      let (st', made, same) =
        put_accounts-clean bytes ac states (D.update st a (plain s)) here (omega (arith, l)) (
          IsHeld-same D st (D.update st a (plain s)) ac states (update-held D st a (plain s) found)
            h) in
      (st', rw (e, eq_refl shard_id) made, same ∙ bytes st a (plain s) found)

  get_accounts-map :
      (init : ℤ) (addrs : List Bytes) (st : D.Trie) (f : Bytes → Option AccountState)
      → ((k : Bytes) → D.get st k ≡ f k)
      → get_accounts D partition shard_id init addrs st
        ≡ map (λ k. account_or_init init 0 (f k)) addrs
  unfolding get_accounts
  get_accounts-map init [] st f h = refl
  get_accounts-map init (a ∷ addrs) st f h =
      rw (h a) (ap (◌∷◌ (account_or_init init 0 (f a))) (get_accounts-map init addrs st f h))

module _ (E : Env) where
  -- Accounts that are added to the shard they live in, with a state for each and at least one whose
  -- balance and nonce are not what the trie holds, are added, where no header has an empty hash and the
  -- state root is in the trie database. They are what a fetch then finds: an address that was added has
  -- the balance and the nonce that came last for it, and no storage root or code hash; every other what
  -- the trie held for it, or the initial balance.
  pub fetch-add_accounts :
      (a : Bytes) (ac addrs : List Bytes) (states : List AccountState) (bc : BlockChain E)
      (st : E.accounts.Trie) (changed : Bytes)
      → ((h : BlockHeader) → E.hash_header h ≢ [])
      → E.accounts.open_at bc.trie_db bc.current_block.header.state_root ≡ some st
      → All (λ k. shard_of_addr E bc k ≡ ok bc.config.shard_id) (a ∷ ac)
      → length (a ∷ ac) ≡ length states
      → assigned (a ∷ ac) states changed (E.accounts.get st changed) ≢ E.accounts.get st changed
      → (bc' : BlockChain E) × (add_accounts E (a ∷ ac) states bc ≡ ok bc')
        × (fetch_accounts E addrs bc'
            ≡ ok (
                map
                  (λ k.
                    account_or_init bc.config.init_balance 0
                      (assigned (a ∷ ac) states k (E.accounts.get st k)))
                  addrs))
  unfolding add_accounts put_and_commit append_block fetch_accounts
  fetch-add_accounts a ac addrs states bc st changed hashed opened here l differs =
      let (st', put, got, clean) =
        put_accounts_lem E.accounts (shard_of_addr E bc) bc.config.shard_id (a ∷ ac) states st here
          l in
      let (st'', reopened, same) = E.accounts.open-commit bc.trie_db st' in
      let b = accounts_block E (E.accounts.commit bc.trie_db st').0 bc in
      let (s, made, newest, blocks, headers) =
        store_block_lem E.buckets b bc.storage (hashed b.header) in
      let dirty : E.accounts.is_dirty st' ≡ true = elim (Bool-cases (E.accounts.is_dirty st')) [
        | inl e ↦ e
        | inr e ↦ absurd (differs (sym (got changed) ∙ (clean e).1 changed))
      ] in
      (
        record bc {
          trie_db = (E.accounts.commit bc.trie_db st').1;
          current_block = b;
          storage = s;
        },
        rw (opened, put, commit_nodes-ok E.accounts bc.trie_db st' dirty, made) refl,
        rw reopened (
            ap ok (
              get_accounts-map E.accounts (shard_of_addr E bc) bc.config.shard_id
                bc.config.init_balance addrs st''
                (λ k. assigned (a ∷ ac) states k (E.accounts.get st k)) (λ k. same k ∙ got k))),
      )

  -- Accounts that come back to their shard, one at least and a state for each, all with the balance and
  -- the nonce that its trie still holds for them, with no storage root or code hash, stop the node, where
  -- the state root is in the trie database and equal states have equal bytes: the trie does not change,
  -- and committing it panics.
  pub add_accounts_unchanged_panics :
      (a : Bytes) (ac : List Bytes) (states : List AccountState) (bc : BlockChain E)
      (st : E.accounts.Trie)
      → ((t : E.accounts.Trie) (k : Bytes) (v : AccountState)
          → E.accounts.get t k ≡ some v
          → E.accounts.is_dirty (E.accounts.update t k v) ≡ E.accounts.is_dirty t)
      → E.accounts.open_at bc.trie_db bc.current_block.header.state_root ≡ some st
      → All (λ k. shard_of_addr E bc k ≡ ok bc.config.shard_id) (a ∷ ac)
      → length (a ∷ ac) ≡ length states
      → IsHeld E.accounts st (a ∷ ac) states
      → add_accounts E (a ∷ ac) states bc ≡ panic
  unfolding add_accounts put_and_commit commit_nodes
  add_accounts_unchanged_panics a ac states bc st bytes opened here l h =
      let (st', put, same) =
        put_accounts-clean E.accounts (shard_of_addr E bc) bc.config.shard_id bytes (a ∷ ac) states
          st here l h in
      rw
        (
          opened,
          put,
          same,
          E.accounts.open-is_dirty bc.trie_db bc.current_block.header.state_root st opened,
        )
        refl
