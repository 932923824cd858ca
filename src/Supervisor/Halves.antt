-- ===== src/Supervisor/Halves.antt =====
-- supervisor/committee/committee_broker.go: a transfer across shards, by way of a broker.
use utxo_block_emulator.Base.{
  ◌≡◌, ◌≢◌, refl, ap, ◌∙◌, arith, ℕ, List, [], ◌∷◌, ◌++◌, false, none, some, Bytes, bytes_eq,
  nat_eq, ◌==◌, eq_iff, eq_refl, append_assoc,
}
use utxo_block_emulator.Base.GoMap
use utxo_block_emulator.Base.GoMap.{GoMap, lookup-insert}
use utxo_block_emulator.Base.Outcome.{Outcome, ok, ◌>>=◌}
use utxo_block_emulator.Core.Transaction.{Transaction, new_transaction}
use utxo_block_emulator.Utils.{addr_to_shard}
use utxo_block_emulator.Supervisor.Brokers.{
  BrokerRawMeg, Mag1Confirm, Mag2Confirm, BrokerCommittee, is_broker, first_broker, add_broker_tx,
  tx1_of, tx2_of, handle_broker_type2_mes, handle_broker_raw_mag, sort_by_broker, deal_tx_by_broker,
  confirm1s, handle_tx1_confirm_mag, handle_tx2_confirm_mag, confirms_of, create_confirm,
}

lookup-inserted :
    {V : Type 0} (k : Bytes) (v : V) (m : GoMap Bytes V)
    → GoMap.lookup k (GoMap.insert k v m) ≡ some v
lookup-inserted k v m = lookup-insert k k v m ∙ rw (eq_refl k) refl

get_or-inserted :
    {V : Type 0} (k : Bytes) (d v : V) (m : GoMap Bytes V)
    → GoMap.get_or k d (GoMap.insert k v m) ≡ v
unfolding GoMap.get_or
get_or-inserted k d v m = rw (lookup-inserted k v m, GoMap.get_or) refl

lookup-other :
    {V : Type 0} (k x : Bytes) (v : V) (m : GoMap Bytes V)
    → k ≢ x
    → GoMap.lookup x (GoMap.insert k v m) ≡ GoMap.lookup x m
lookup-other k x v m h = ground (arith, lookup-insert k x v m, eq_iff k x)

module _ (hash : Transaction → Bytes) (digest : BrokerRawMeg → Bytes) (shards : ℕ) where
  abbrev pub raw_of : Transaction → Bytes → BrokerRawMeg
  raw_of tx b = record { tx = tx; broker = b }

  -- The two halves of a transfer by way of broker `b`.
  abbrev pub first_half : Transaction → Bytes → Transaction
  first_half tx b = tx1_of hash digest shards (record { raw_meg = raw_of tx b; broker = b })

  abbrev pub second_half : Transaction → Bytes → Transaction
  second_half tx b = tx2_of hash digest shards (record { raw_meg = raw_of tx b; broker = b })

  -- The committee after the transfer is dealt with, after its first half, and after its second.
  abbrev pub dealt : Transaction → Bytes → BrokerCommittee → BrokerCommittee
  dealt tx b c = record c {
    broker_raw_megs = GoMap.insert (digest (raw_of tx b)) (raw_of tx b) c.broker_raw_megs;
    broker_confirm1_pool =
        GoMap.insert (first_half tx b).tx_hash
          (record { tx1_hash = (first_half tx b).tx_hash; raw_meg = raw_of tx b })
          c.broker_confirm1_pool;
  }

  abbrev pub halfway : Transaction → Bytes → BrokerCommittee → BrokerCommittee
  halfway tx b c =
      let c₁ = add_broker_tx tx.tx_hash (first_half tx b).tx_hash c in
      record c₁ {
        broker_confirm2_pool =
            GoMap.insert (second_half tx b).tx_hash
              (record { tx2_hash = (second_half tx b).tx_hash; raw_meg = raw_of tx b })
              c₁.broker_confirm2_pool;
      }

  abbrev pub completed : Transaction → Bytes → BrokerCommittee → BrokerCommittee
  completed tx b c = add_broker_tx tx.tx_hash (second_half tx b).tx_hash c

  deals :
      (tx : Transaction) (c : BrokerCommittee) (b : Bytes) (bs : List Bytes) (r s : ℕ)
      → c.broker_address ≡ b ∷ bs
      → addr_to_shard shards tx.recipient ≡ ok r
      → addr_to_shard shards tx.sender ≡ ok s
      → (r == s) ≡ false
      → is_broker c tx.recipient ≡ false
      → is_broker c tx.sender ≡ false
      → deal_tx_by_broker hash digest shards (tx ∷ []) c
        ≡ ok ([], (dealt tx b c, first_half tx b ∷ []))
  unfolding deal_tx_by_broker sort_by_broker handle_broker_raw_mag
  deals tx c b bs r s named there here apart no_recipient no_sender =
      rw (there, here, apart, no_recipient, no_sender, named, sort_by_broker, first_broker) refl

  confirms_of-one :
      {V : Type 0} (pool : GoMap Bytes V) (tx : Transaction) (v : V)
      → GoMap.lookup tx.tx_hash pool ≡ some v
      → confirms_of hash digest shards pool (tx ∷ []) ≡ v ∷ []
  unfolding confirms_of
  confirms_of-one pool tx v e = rw (e, confirms_of) refl

  confirms_of-miss :
      {V : Type 0} (pool : GoMap Bytes V) (tx : Transaction)
      → GoMap.lookup tx.tx_hash pool ≡ none
      → confirms_of hash digest shards pool (tx ∷ []) ≡ []
  unfolding confirms_of
  confirms_of-miss pool tx e = rw (e, confirms_of) refl

  abbrev after :
      List Mag2Confirm
      → BrokerCommittee × List Transaction
      → Outcome (BrokerCommittee × List Transaction)
  after seconds r = ok (handle_tx2_confirm_mag hash digest shards seconds r.0, r.1)

  create_confirm-by :
      (txs : List Transaction) (c : BrokerCommittee) (firsts : List Mag1Confirm)
      (seconds : List Mag2Confirm)
      → confirms_of hash digest shards c.broker_confirm1_pool txs ≡ firsts
      → confirms_of hash digest shards c.broker_confirm2_pool txs ≡ seconds
      → create_confirm hash digest shards txs c
        ≡ (handle_tx1_confirm_mag hash digest shards firsts c >>= after seconds)
  unfolding create_confirm
  create_confirm-by txs c firsts seconds e e' =
      ap
        (λ l.
          handle_tx1_confirm_mag hash digest shards l c
          >>= after (confirms_of hash digest shards c.broker_confirm2_pool txs))
        e
      ∙ ap (λ l. handle_tx1_confirm_mag hash digest shards firsts c >>= after l) e'

  handle_tx1-one :
      (tx : Transaction) (c : BrokerCommittee) (b : Bytes) (bs : List Bytes)
      → c.broker_address ≡ b ∷ bs
      → GoMap.lookup (digest (raw_of tx b)) c.broker_raw_megs ≡ some (raw_of tx b)
      → handle_tx1_confirm_mag hash digest shards
          (record { tx1_hash = (first_half tx b).tx_hash; raw_meg = raw_of tx b } ∷ [])
          c
        ≡ ok (halfway tx b c, second_half tx b ∷ [])
  unfolding handle_tx1_confirm_mag confirm1s handle_broker_type2_mes
  handle_tx1-one tx c b bs named known = rw (known, named, confirm1s, first_broker) refl

  confirms_first :
      (tx : Transaction) (c : BrokerCommittee) (b : Bytes) (bs : List Bytes)
      → c.broker_address ≡ b ∷ bs
      → GoMap.lookup (first_half tx b).tx_hash c.broker_confirm2_pool ≡ none
      → create_confirm hash digest shards (first_half tx b ∷ []) (dealt tx b c)
        ≡ ok (halfway tx b (dealt tx b c), second_half tx b ∷ [])
  unfolding handle_tx2_confirm_mag
  confirms_first tx c b bs named fresh =
      create_confirm-by (first_half tx b ∷ []) (dealt tx b c) _ []
        (confirms_of-one (dealt tx b c).broker_confirm1_pool (first_half tx b) _
          (lookup-inserted (first_half tx b).tx_hash _ c.broker_confirm1_pool))
        (confirms_of-miss (dealt tx b c).broker_confirm2_pool (first_half tx b) fresh)
      ∙ ap (λ o. o >>= after [])
          (handle_tx1-one tx (dealt tx b c) b bs named
            (lookup-inserted (digest (raw_of tx b)) (raw_of tx b) c.broker_raw_megs))

  confirms_second :
      (tx : Transaction) (c : BrokerCommittee) (b : Bytes)
      → (first_half tx b).tx_hash ≢ (second_half tx b).tx_hash
      → GoMap.lookup (second_half tx b).tx_hash c.broker_confirm1_pool ≡ none
      → create_confirm hash digest shards (second_half tx b ∷ []) (halfway tx b (dealt tx b c))
        ≡ ok (completed tx b (halfway tx b (dealt tx b c)), [])
  unfolding handle_tx1_confirm_mag confirm1s handle_broker_type2_mes handle_tx2_confirm_mag
      add_broker_tx
  confirms_second tx c b differ fresh =
      create_confirm-by (second_half tx b ∷ []) (halfway tx b (dealt tx b c)) []
        (record { tx2_hash = (second_half tx b).tx_hash; raw_meg = raw_of tx b } ∷ [])
        (confirms_of-miss (dealt tx b c).broker_confirm1_pool (second_half tx b) (
          lookup-other (first_half tx b).tx_hash (second_half tx b).tx_hash _ c.broker_confirm1_pool
            differ
          ∙ fresh))
        (confirms_of-one (halfway tx b (dealt tx b c)).broker_confirm2_pool (second_half tx b) _
          (lookup-inserted (second_half tx b).tx_hash _ c.broker_confirm2_pool))

  -- What a transfer and its two halves have to do with each other.
  pub record Carries (tx : Transaction) (b : Bytes) (one two : Transaction) : Type 0 where
    from_sender : one.sender ≡ tx.sender
    to_broker : one.recipient ≡ b
    from_broker : two.sender ≡ b
    to_recipient : two.recipient ≡ tx.recipient
    same_value : (one.value ≡ tx.value) × (two.value ≡ tx.value)
    same_raw : (one.raw_tx_hash ≡ tx.tx_hash) × (two.raw_tx_hash ≡ tx.tx_hash)

  halves-Carries :
      (tx : Transaction) (b : Bytes) → Carries tx b (first_half tx b) (second_half tx b)
  unfolding tx1_of tx2_of new_transaction
  halves-Carries tx b = record {
    from_sender = refl;
    to_broker = refl;
    from_broker = refl;
    to_recipient = refl;
    same_value = (refl, refl);
    same_raw = (refl, refl);
  }

  both_recorded :
      (tx : Transaction) (b : Bytes) (c : BrokerCommittee)
      → GoMap.get_or tx.tx_hash [] (completed tx b (halfway tx b (dealt tx b c))).raw_tx2broker_tx
        ≡ GoMap.get_or tx.tx_hash [] c.raw_tx2broker_tx
          ++ ((first_half tx b).tx_hash ∷ (second_half tx b).tx_hash ∷ [])
  unfolding add_broker_tx
  both_recorded tx b c =
      let old = GoMap.get_or tx.tx_hash [] c.raw_tx2broker_tx in
      let one = old ++ ((first_half tx b).tx_hash ∷ []) in
      get_or-inserted tx.tx_hash [] _ (GoMap.insert tx.tx_hash one c.raw_tx2broker_tx)
      ∙ ap (λ l. l ++ ((second_half tx b).tx_hash ∷ []))
          (get_or-inserted tx.tx_hash [] one c.raw_tx2broker_tx)
      ∙ append_assoc old ((first_half tx b).tx_hash ∷ []) ((second_half tx b).tx_hash ∷ [])

  -- A transfer between two shards, neither of whose accounts is a broker, goes by way of the first
  -- broker: the committee keeps it and sends a first half, which pays the broker; when a block confirms
  -- the first half, it sends a second half, which pays the recipient from the broker, with the same
  -- value; and when a block confirms that one, it sends nothing more and has recorded the hashes of both
  -- halves for the transfer. The condition is that the hashes of the halves differ, and that the first
  -- is not yet known as one of a second half, nor the second as one of a first half.
  pub broker_transfer_completes :
      (tx : Transaction) (c : BrokerCommittee) (b : Bytes) (bs : List Bytes) (r s : ℕ)
      → c.broker_address ≡ b ∷ bs
      → addr_to_shard shards tx.recipient ≡ ok r
      → addr_to_shard shards tx.sender ≡ ok s
      → (r == s) ≡ false
      → is_broker c tx.recipient ≡ false
      → is_broker c tx.sender ≡ false
      → (first_half tx b).tx_hash ≢ (second_half tx b).tx_hash
      → GoMap.lookup (first_half tx b).tx_hash c.broker_confirm2_pool ≡ none
      → GoMap.lookup (second_half tx b).tx_hash c.broker_confirm1_pool ≡ none
      → (one two : Transaction) × (c₁ c₂ c₃ : BrokerCommittee) × (deal_tx_by_broker hash digest
            shards
            (tx ∷ [])
            c
          ≡ ok ([], (c₁, one ∷ [])))
        × (create_confirm hash digest shards (one ∷ []) c₁ ≡ ok (c₂, two ∷ []))
        × (create_confirm hash digest shards (two ∷ []) c₂ ≡ ok (c₃, []))
        × Carries tx b one two
        × (GoMap.get_or tx.tx_hash [] c₃.raw_tx2broker_tx
            ≡ GoMap.get_or tx.tx_hash [] c.raw_tx2broker_tx ++ (one.tx_hash ∷ two.tx_hash ∷ []))
  broker_transfer_completes tx c b bs r s named there here apart no_recipient no_sender differ
        fresh1 fresh2 =
      (
        first_half tx b,
        second_half tx b,
        dealt tx b c,
        halfway tx b (dealt tx b c),
        completed tx b (halfway tx b (dealt tx b c)),
        deals tx c b bs r s named there here apart no_recipient no_sender,
        confirms_first tx c b bs named fresh1,
        confirms_second tx c b differ fresh2,
        halves-Carries tx b,
        both_recorded tx b c,
      )
