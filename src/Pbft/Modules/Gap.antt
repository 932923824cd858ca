-- ===== src/Pbft/Modules/Gap.antt =====
-- consensus_shard/pbft_all: where the relay modules and the protocol leave something out.
use utxo_block_emulator.Base.{
  ℕ, zero, suc, List, [], ◌∷◌, ◌++◌, true, false, Option, some, none, ◌≡◌, ◌≢◌, refl, sym, ap, ◌∙◌,
  Bytes, nat_eq, bytes_eq, ◌==◌, Bool-cases, inl, inr, arith, eq_refl,
}
use utxo_block_emulator.Base.Int.{ℤ, ◌+ℤ◌, ltb_ℤ}
use utxo_block_emulator.Base.GoMap
use utxo_block_emulator.Base.GoMap.{GoMap}
use utxo_block_emulator.Base.Outcome.{Outcome, ok, ok-injective, >>=-eq-ok}
use utxo_block_emulator.Core.Account.{AccountState}
use utxo_block_emulator.Core.Block.{Block}
use utxo_block_emulator.Core.Transaction.{Transaction}
use utxo_block_emulator.Core.UtxoTransaction.{UtxoTransaction}
use utxo_block_emulator.Core.TxPool
use utxo_block_emulator.Message.{Request, BlockInfoMsg}
use utxo_block_emulator.Chain.TrieDb.{TrieDb}
use utxo_block_emulator.Chain.Ledger.{handle_txs}
use utxo_block_emulator.Chain.Ledger.Balances.{
  Table, write, credited, transferred, all_transferred, table, IsPlaced, handle_txs-transfers,
}
use utxo_block_emulator.Chain.Blockchain.{Env, BlockChain, shard_of_addr}
use utxo_block_emulator.Pbft.{Node}
use utxo_block_emulator.Pbft.Modules.{RelayOut, block_info}
use utxo_block_emulator.Pbft.Modules.RawRelay.{relayed_tx, sort_tx, relay_tx, Sorted}
use utxo_block_emulator.Pbft.Modules.UtxoRelay.{
  relay_utxo_block, send_utxo_relays, sort_utxos, unsorted_utxos, utxo_block_info_of,
}

-- Nothing is sent where the tested pool is empty.
send_utxo_relays-nil :
    (shard_id seq : ℕ) (pool : GoMap ℕ (List UtxoTransaction)) (rounds sid : ℕ)
    → send_utxo_relays shard_id seq [] pool rounds sid ≡ []
unfolding send_utxo_relays GoMap.get_or GoMap.lookup
send_utxo_relays-nil shard_id seq pool zero sid = refl
send_utxo_relays-nil shard_id seq pool (suc rounds) sid = elim (Bool-cases (sid == shard_id)) [
  | inl e ↦ rw e (send_utxo_relays-nil shard_id seq pool rounds (suc sid))
  | inr e ↦ rw e (send_utxo_relays-nil shard_id seq pool rounds (suc sid))
]

module _ (E : Env) (encode : Block → Bytes) (decode : Bytes → Option Block)
    (now : Node (BlockChain E) → ℕ) where
  -- On a node whose `Txpool` has an empty relay pool, as it is made and as UTXO mode leaves it, the main
  -- node sends its report of a block and nothing else: no transaction reaches another shard, whatever
  -- the block's recipients are, and the UTXO relay pool is cleared.
  pub utxo_block_never_relayed :
      (r : Request) (block : Block) (n n' : Node (BlockChain E)) (out : List RelayOut)
      → TxPool.relay_map n.cur_chain.tx_pool ≡ []
      → relay_utxo_block E encode decode now r block n ≡ ok (n', out)
      → (info : BlockInfoMsg) × (out ≡ block_info info ∷ [])
        × (n'.cur_chain.utxo_tx_pool.relay_pool ≡ none)
  unfolding relay_utxo_block TxPool.clear_relay_pool
  utxo_block_never_relayed r block n n' out empty h =
      let (s, _, e) =
        >>=-eq-ok
          (sort_utxos (shard_of_addr E n.cur_chain) n.shard_id block.utxo
            (unsorted_utxos E encode decode now n.cur_chain.utxo_tx_pool))
          _ h in
      (
        utxo_block_info_of E encode decode now r block s n,
        ap (λ p. p.1) (sym (ok-injective e))
            ∙ ap
                (λ m.
                  send_utxo_relays n.shard_id n.sequence_id m (TxPool.relay_map s.pool)
                    n.cur_chain.config.shard_nums 0
                  ++ (block_info (utxo_block_info_of E encode decode now r block s n) ∷ []))
                empty
            ∙ ap (λ l. l ++ (block_info (utxo_block_info_of E encode decode now r block s n) ∷ []))
                (send_utxo_relays-nil n.shard_id n.sequence_id (TxPool.relay_map s.pool)
                  n.cur_chain.config.shard_nums 0),
        ap (λ p. p.0.cur_chain.utxo_tx_pool.relay_pool) (sym (ok-injective e)),
      )

-- A transaction that a sender on shard `src` cannot pay, to a recipient on shard `dst`.
pub record IsUnpaid (home : Bytes → ℕ) (src dst : ℕ) (b : Table) (tx : Transaction) : Type 0 where
  pub first_hand : tx.relayed ≡ false
  pub not_brokered : tx.has_broker ≡ false
  pub sender : home tx.sender ≡ src
  pub recipient : home tx.recipient ≡ dst
  pub apart : src ≢ dst
  pub unpaid : ltb_ℤ (b tx.sender) tx.value ≡ true

module _ (home : Bytes → ℕ) (src dst : ℕ) (tx : Transaction) where
  -- It changes nothing on its own shard; marked as relayed it is credited on the other.
  unpaid-transferred :
      (b : Table)
      → IsUnpaid home src dst b tx
      → all_transferred (λ a. home a == src) (tx ∷ []) b ≡ b
  unpaid-transferred b u = rw (transferred, u.first_hand, u.sender, eq_refl src, u.unpaid) refl

  relayed-transferred :
      (b b' : Table)
      → IsUnpaid home src dst b tx
      → all_transferred (λ a. home a == dst) (relayed_tx tx ∷ []) b'
        ≡ write tx.recipient (b' tx.recipient +ℤ tx.value) b'
  relayed-transferred b b' u = rw (transferred, credited, u.recipient, eq_refl dst) refl

  -- A transfer to another shard that its sender cannot pay debits nobody: the source shard's table
  -- stays as it is. The commit of the block relays it all the same, and the destination shard adds its
  -- value to the recipient's balance.
  pub unpaid_transfer_is_credited :
      (D : TrieDb AccountState) (partition : Bytes → Outcome ℕ) (init : ℤ) (s s' : D.Trie × ℕ)
      (sorting : Sorted) (m : GoMap ℕ (List Transaction))
      → IsPlaced partition home tx
      → IsUnpaid home src dst (table D init s.0) tx
      → sorting.pool.relay_pool ≡ some m
      → (t t' : D.Trie × ℕ) × (handle_txs D partition init src 0 (tx ∷ []) s ≡ ok t)
        × (table D init t.0 ≡ table D init s.0)
        × (sort_tx partition src tx sorting
            ≡ ok (record sorting {
              pool = record sorting.pool {
                relay_pool = some (TxPool.add_relay_map (relayed_tx tx) dst m);
              };
              relay1_txs = sorting.relay1_txs ++ (relayed_tx tx ∷ []);
            }))
        × (handle_txs D partition init dst 0 (relayed_tx tx ∷ []) s' ≡ ok t')
        × (table D init t'.0 tx.recipient ≡ table D init s'.0 tx.recipient +ℤ tx.value)
  unfolding sort_tx relay_tx TxPool.add_relay_tx
  unpaid_transfer_is_credited D partition init s s' sorting m placed u pool =
      let (t, made, same) =
        handle_txs-transfers D partition init src home 0 (tx ∷ []) s (placed, tt) in
      let (t', made', same') =
        handle_txs-transfers D partition init dst home 0 (relayed_tx tx ∷ []) s' (placed, tt) in
      (
        t,
        t',
        made,
        same ∙ unpaid-transferred (table D init s.0) u,
        rw (placed.1 ∙ ap ok u.recipient, other dst src (λ e. u.apart (sym e)), pool) refl,
        made',
        ap (λ b. b tx.recipient)
              (same' ∙ relayed-transferred (table D init s.0) (table D init s'.0) u)
            ∙ rw (write, eq_refl tx.recipient) refl,
      )
    where
      other : (a b : ℕ) → a ≢ b → (a == b) ≡ false
      other a b h = ground arith
