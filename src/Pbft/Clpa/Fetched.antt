-- ===== src/Pbft/Clpa/Fetched.antt =====
-- consensus_shard/pbft_all/accountTransfer_module.go, `sendAccounts_and_Txs`: the accounts that leave the shard.
use utxo_block_emulator.Base.{
  ℕ, ◌≡◌, ◌≢◌, refl, sym, ap, ◌∙◌, subst, arith, List, [], ◌∷◌, ◌||◌, Bool, true, false, none, some,
  All, Bool-cases, inl, inr, if◌then◌else◌, Bytes, bytes_eq, nat_eq, ◌==◌, eq_iff,
}
use utxo_block_emulator.Base.GoMap
use utxo_block_emulator.Base.GoMap.{GoMap}
use utxo_block_emulator.Base.Outcome.{
  Outcome, ok, ok-injective, ◌>>=◌, Yields, Yields-bind, Yields-if,
}
use utxo_block_emulator.Pbft.Clpa.Transfer.{contains, accounts_to_fetch}

-- As Go has it, no key stands twice.
abbrev pub IsMap : GoMap Bytes ℕ → Type 0
IsMap [] = Unit {0}
IsMap ((key, val) ∷ rest) = (GoMap.lookup key rest ≡ none) × IsMap rest

module _ (partition : Bytes → Outcome ℕ) (shard_id : ℕ) where
  -- The accounts that the map gives to another shard and that are here.
  pub record Leaving (m : GoMap Bytes ℕ) (addrs : List Bytes) : Type 0 where
    pub moves :
        (a : Bytes)
        → contains addrs a ≡ true
        → (v : ℕ) × (GoMap.lookup a m ≡ some v) × (v ≢ shard_id)
    pub all :
        (a : Bytes) (v : ℕ)
        → GoMap.lookup a m ≡ some v
        → v ≢ shard_id
        → partition a ≡ ok shard_id
        → contains addrs a ≡ true

  abbrev IsHere : Bytes → ℕ → Bool → Type 0
  IsHere key val here =
      (here ≡ true → val ≢ shard_id) × (val ≢ shard_id → partition key ≡ ok shard_id → here ≡ true)

  lookup-cons :
      (key a : Bytes) (val : ℕ) (rest : GoMap Bytes ℕ)
      → GoMap.lookup a ((key, val) ∷ rest) ≡ (if key == a then some val else GoMap.lookup a rest)
  unfolding GoMap.lookup
  lookup-cons key a val rest = refl

  contains-if :
      (key a : Bytes) (addrs : List Bytes) (here : Bool)
      → contains (if here then key ∷ addrs else addrs) a
        ≡ (if here then key == a || contains addrs a else contains addrs a)
  contains-if key a addrs true = refl
  contains-if key a addrs false = refl

  Leaving-cons :
      (key : Bytes) (val : ℕ) (rest : GoMap Bytes ℕ) (addrs : List Bytes) (here : Bool)
      → GoMap.lookup key rest ≡ none
      → IsHere key val here
      → Leaving rest addrs
      → Leaving ((key, val) ∷ rest) (if here then key ∷ addrs else addrs)
  Leaving-cons key val rest addrs here fresh (away, found) h = record {
    moves = λ a t. elim (Bool-cases (key == a)) [
      | inr e ↦
          let later : contains addrs a ≡ true =
            ground (arith, contains-if key a addrs here, t, e) in
          let (v, l, other) = h.moves a later in (v, lookup-cons key a val rest ∙ rw e l, other)
      | inl e ↦ elim (Bool-cases here) [
        | inl b ↦ (val, lookup-cons key a val rest ∙ rw e refl, away b)
        | inr b ↦
            let later : contains addrs a ≡ true =
              ground (arith, contains-if key a addrs here, t, b) in
            let (v, l, other) = h.moves a later in
            absurd (ground (arith, l, fresh, (eq_iff key a).0 e))
      ]
    ];
    all = λ a v l other p. elim (Bool-cases (key == a)) [
      | inr e ↦
          let later : contains addrs a ≡ true =
            h.all a v (sym (lookup-cons key a val rest ∙ rw e refl) ∙ l) other p in
          ground (arith, contains-if key a addrs here, later)
      | inl e ↦
          let same : val ≡ v = ground (arith, lookup-cons key a val rest, l, e) in
          let b : here ≡ true =
            found (subst (λ x. x ≢ shard_id) (sym same) other)
              (subst (λ x. partition x ≡ ok shard_id) (sym ((eq_iff key a).0 e)) p) in
          ground (arith, contains-if key a addrs here, b, e)
    ];
  }

  pub accounts_to_fetch-Leaving :
      (m : GoMap Bytes ℕ)
      → IsMap m
      → All (λ e. Yields (λ _. Unit {0}) (partition e.0)) m
      → Yields (Leaving m) (accounts_to_fetch partition shard_id m)
  unfolding accounts_to_fetch GoMap.lookup
  accounts_to_fetch-Leaving [] _ _ = ([], refl, record { moves = λ a t. cc; all = λ a v l. cc })
  accounts_to_fetch-Leaving ((key, val) ∷ rest) (fresh, unique) ((p, found, _), total) =
      Yields-bind
        (if val == shard_id then ok false else (partition key >>= λ q. ok (q == shard_id))) _
        (Yields-if {P = IsHere key val} (val == shard_id) (ok false)
          (partition key >>= λ q. ok (q == shard_id))
          (λ e. (false, refl, (λ t. cc, λ other _. absurd (other ((eq_iff val shard_id).0 e)))))
          (λ e. (
            p == shard_id,
            ap (λ o. o >>= λ q. ok (q == shard_id)) found,
            (
              λ _ s. absurd (ground (arith, (eq_iff val shard_id).1 s, e)),
              λ _ q. (eq_iff p shard_id).1 (ok-injective (sym found ∙ q)),
            ),
          )))
        (λ here h.
          Yields-bind (accounts_to_fetch partition shard_id rest) _
            (accounts_to_fetch-Leaving rest unique total)
            (λ addrs k. (_, refl, Leaving-cons key val rest addrs here fresh h k)))
