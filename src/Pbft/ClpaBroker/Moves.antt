-- ===== src/Pbft/ClpaBroker/Moves.antt =====
-- consensus_shard/pbft_all/accountTransfermod_Broker.go, `sendAccounts_and_Txs`: where the transactions of the queue go.
use utxo_block_emulator.Base.{
  ℕ, zero, suc, ◌+◌, ◌≤◌, ◌<◌, ◌≡◌, refl, ap, ◌∙◌, arith, List, [], ◌∷◌, ◌++◌, Bool, not, ◌&&◌,
  some, length, get_elem?, set, take, drop, keep, append-nil, append_assoc, Bool-cases, inl, inr,
  if◌then◌else◌, All, Bytes, bytes_eq, nat_eq, ◌==◌, length-drop, get_elem?-drop, drop-suc,
  drop-set, take-suc-set,
}
use utxo_block_emulator.Base.GoMap.{GoMap}
use utxo_block_emulator.Base.Outcome.{ok, Yields, Yields-bind, Yields-after}
use utxo_block_emulator.Core.Account.{AccountState}
use utxo_block_emulator.Core.Transaction.{Transaction}
use utxo_block_emulator.Chain.Blockchain.{Env, shard_of_addr}
use utxo_block_emulator.Chain.Blockchain.Accounts.{fetch_accounts}
use utxo_block_emulator.Pbft.Clpa.{ClpaNode, ClpaOut, accounts_to}
use utxo_block_emulator.Pbft.Clpa.Transfer.{select_accounts, accounts_to_fetch, last_map}
use utxo_block_emulator.Pbft.Clpa.Selected.{sent_txs, length-keep_append}
use utxo_block_emulator.Pbft.Clpa.Fetched.{IsMap, accounts_to_fetch-Leaving}
use utxo_block_emulator.Pbft.Clpa.Rounds.{queue_of, fetch_accounts-length}
use utxo_block_emulator.Pbft.ClpaBroker.Transfer.{
  Parted, compact_broker, be_send, be_cross, broker_send_to_shards, send_broker_accounts_and_txs,
}

module _ (sends crosses : Transaction → Bool) where
  abbrev is_sent : Transaction → Bool
  is_sent tx = not (crosses tx) && sends tx

  abbrev is_left : Transaction → Bool
  is_left tx = not (crosses tx) && not (sends tx)

  -- What three filters make of the rest of a queue whose front is done.
  abbrev parts : (front todo : List Transaction) → Parted → Parted
  parts front todo s = record {
    queue = front ++ keep is_left todo;
    tx_send = s.tx_send ++ keep is_sent todo;
    be_cross = s.be_cross ++ keep crosses todo;
  }

  compact_broker-midway :
      (todo : List Transaction) (second first : ℕ) (s : Parted)
      → first ≤ second
      → drop second s.queue ≡ todo
      → compact_broker sends crosses (length todo) second first s
        ≡ parts (take first s.queue) todo s
  unfolding compact_broker
  compact_broker-midway [] second first s h e =
      rw (append-nil (take first s.queue), append-nil s.tx_send, append-nil s.be_cross) refl
  compact_broker-midway (x ∷ todo) second first s h e =
      let found : get_elem? s.queue second ≡ some x = get_elem?-drop s.queue second x todo e in
      let rest : drop (suc second) s.queue ≡ todo = drop-suc s.queue second x todo e in
      let inside : first < length s.queue =
        omega (arith, length-drop second s.queue, ap length e) in
      elim (Bool-cases (crosses x)) [
        | inl t ↦
            rw (found, t, keep, compact_broker)
              (compact_broker-midway todo (suc second) first
                  (record s { be_cross = s.be_cross ++ (x ∷ []) }) (omega arith) rest
                ∙ ap
                    (λ l. record {
                      queue = take first s.queue ++ keep is_left todo;
                      tx_send = s.tx_send ++ keep is_sent todo;
                      be_cross = l;
                    })
                    (append_assoc s.be_cross (x ∷ []) (keep crosses todo)))
        | inr t ↦ elim (Bool-cases (sends x)) [
          | inl u ↦
              rw (found, t, u, keep, compact_broker)
                (compact_broker-midway todo (suc second) first
                    (record s { tx_send = s.tx_send ++ (x ∷ []) }) (omega arith) rest
                  ∙ ap
                      (λ l. record {
                        queue = take first s.queue ++ keep is_left todo;
                        tx_send = l;
                        be_cross = s.be_cross ++ keep crosses todo;
                      })
                      (append_assoc s.tx_send (x ∷ []) (keep is_sent todo)))
          | inr u ↦
              rw (found, t, u, keep, compact_broker)
                (compact_broker-midway todo (suc second) (suc first)
                    (record s { queue = set s.queue first x }) (omega arith)
                    (drop-set s.queue first (suc second) x (omega arith) ∙ rest)
                  ∙ ap
                      (λ l. record {
                        queue = l;
                        tx_send = s.tx_send ++ keep is_sent todo;
                        be_cross = s.be_cross ++ keep crosses todo;
                      })
                      (ap (λ l. l ++ keep is_left todo) (take-suc-set s.queue first x inside)
                        ∙ append_assoc (take first s.queue) (x ∷ []) (keep is_left todo)))
        ]
      ]

  length-keep_parts :
      (p : Transaction → Bool) (xs : List Transaction)
      → length (keep p xs)
        ≡ length (keep p (keep is_left xs))
          + length (keep p (keep is_sent xs))
          + length (keep p (keep crosses xs))
  length-keep_parts p [] = omega arith
  length-keep_parts p (x ∷ xs) = elim (Bool-cases (crosses x)) [
    | inl e ↦ rw (e, keep) (ground (arith, length-keep_parts p xs))
    | inr e ↦ elim (Bool-cases (sends x)) [
      | inl u ↦ rw (e, u, keep) (ground (arith, length-keep_parts p xs))
      | inr u ↦ rw (e, u, keep) (ground (arith, length-keep_parts p xs))
    ]
  ]

module _ (m : GoMap Bytes ℕ) (shard_id : ℕ) (addrs : List Bytes) (states : List AccountState) where
  abbrev chosen : ℕ → List Bytes
  chosen i = (select_accounts m i addrs states).0

  abbrev turn : (rounds i : ℕ) → Parted → (List Transaction × List Transaction) × List ClpaOut
  turn rounds i s =
      let rest = broker_send_to_shards m shard_id addrs states rounds (suc i) s.queue s.be_cross in
      (
        rest.0,
        accounts_to i (record {
          addrs = chosen i;
          account_state = (select_accounts m i addrs states).1;
          txs = s.tx_send;
          from_shard = shard_id;
        })
            ∷ rest.1,
      )

  abbrev begun : (queue crossed : List Transaction) → Parted
  begun queue crossed = record { queue = queue; tx_send = []; be_cross = crossed }

  abbrev split : (i : ℕ) (queue crossed : List Transaction) → Parted
  split i queue crossed =
      parts (be_send (chosen i)) (be_cross (chosen i)) [] queue (begun queue crossed)

  broker-zero :
      (i : ℕ) (queue crossed : List Transaction)
      → broker_send_to_shards m shard_id addrs states zero i queue crossed ≡ ((queue, crossed), [])
  unfolding broker_send_to_shards
  broker-zero i queue crossed = refl

  broker-round :
      (rounds i : ℕ) (queue crossed : List Transaction)
      → broker_send_to_shards m shard_id addrs states (suc rounds) i queue crossed ≡ (
          if i == shard_id
          then broker_send_to_shards m shard_id addrs states rounds (suc i) queue crossed
          else turn rounds i (split i queue crossed))
  unfolding broker_send_to_shards
  broker-round rounds i queue crossed =
      ap
        (λ s.
          if i == shard_id
          then broker_send_to_shards m shard_id addrs states rounds (suc i) queue crossed
          else turn rounds i s)
        (compact_broker-midway (be_send (chosen i)) (be_cross (chosen i)) queue 0 0
          (begun queue crossed) (omega arith) refl)

  -- Of each kind of transaction, as many are left, sent and crossing as there were.
  broker_send_to_shards-counts :
      (p : Transaction → Bool) (rounds i : ℕ) (queue crossed : List Transaction)
      → length (keep p queue) + length (keep p crossed)
        ≡ length (keep p (broker_send_to_shards m shard_id addrs states rounds i queue crossed).0.0)
          + length
              (keep p (broker_send_to_shards m shard_id addrs states rounds i queue crossed).0.1)
          + length (
              keep p
                (sent_txs (broker_send_to_shards m shard_id addrs states rounds i queue crossed).1))
  broker_send_to_shards-counts p zero i queue crossed =
      rw (broker-zero i queue crossed) (omega arith)
  broker_send_to_shards-counts p (suc rounds) i queue crossed = elim (Bool-cases (i == shard_id)) [
    | inl e ↦
        rw (broker-round rounds i queue crossed, e)
          (broker_send_to_shards-counts p rounds (suc i) queue crossed)
    | inr e ↦
        let s = split i queue crossed in
        let rest =
          broker_send_to_shards m shard_id addrs states rounds (suc i) s.queue s.be_cross in
        rw (broker-round rounds i queue crossed, e)
          (omega (
            arith,
            length-keep_parts (be_send (chosen i)) (be_cross (chosen i)) p queue,
            broker_send_to_shards-counts p rounds (suc i) s.queue s.be_cross,
            length-keep_append p crossed (keep (be_cross (chosen i)) queue),
            length-keep_append p s.tx_send (sent_txs rest.1),
          ))
  ]

module _ (E : Env) where
  -- With a map that the node has received, of accounts whose present shard is known, and a state root
  -- that its trie database has, the broker module's `sendAccounts_and_Txs` comes to an end, and no
  -- transaction is lost or doubled: of each kind, the queue that is left, the messages to the other
  -- shards, and the message to the supervisor of those that come to cross shards hold together as many
  -- as the queue did.
  pub send_broker_accounts_and_txs-keeps :
      (n : ClpaNode E) (m : GoMap Bytes ℕ) (st : E.accounts.Trie)
      → last_map n.cur_chain.cdm.modified_map ≡ ok m
      → IsMap m
      → All (λ e. Yields (λ _. Unit {0}) (shard_of_addr E n.cur_chain.chain e.0)) m
      → E.accounts.open_at n.cur_chain.chain.trie_db
          n.cur_chain.chain.current_block.header.state_root
        ≡ some st
      → Yields
          (λ r.
            (p : Transaction → Bool)
            → length (keep p (queue_of E n))
              ≡ length (keep p (queue_of E r.0))
                + length (keep p r.2)
                + length (keep p (sent_txs r.1)))
          (send_broker_accounts_and_txs E n)
  unfolding send_broker_accounts_and_txs
  send_broker_accounts_and_txs-keeps n m st last unique known opened =
      Yields-after (last_map n.cur_chain.cdm.modified_map) _ last (
        Yields-bind (accounts_to_fetch (shard_of_addr E n.cur_chain.chain) n.shard_id m) _
          (accounts_to_fetch-Leaving (shard_of_addr E n.cur_chain.chain) n.shard_id m unique known)
          (λ addrs leaving.
            Yields-bind (fetch_accounts E addrs n.cur_chain.chain) _
              (fetch_accounts-length E addrs n.cur_chain.chain st opened)
              (λ states same. (
                _,
                refl,
                λ p. omega (
                  arith,
                  broker_send_to_shards-counts m n.shard_id addrs states p
                      n.cur_chain.chain.config.shard_nums 0 (queue_of E n) [],
                ),
              ))))
