-- ===== src/Chain/Ledger/Solvency.antt =====
-- chain/blockchain.go: what a block of transfers does to the sum of the balances, and to their sign.
use utxo_block_emulator.Base.{
  ℕ, suc, List, [], ◌∷◌, Bool, true, false, ◌||◌, ◌&&◌, not, ◌≡◌, refl, sym, ap, subst, ◌∙◌, Bytes,
  bytes_eq, nat_eq, ◌==◌, if◌then◌else◌, arith, eq_iff, Bool-cases, inl, inr, All,
}
use utxo_block_emulator.Base.Int.{
  ℤ, pos, ◌+ℤ◌, ◌-ℤ◌, ◌≤ℤ◌, ltb_ℤ, ltb_ℤ→le, int_laws, +ℤ_assoc, parts_of_eq,
}
use utxo_block_emulator.Base.Outcome.{Outcome, ok}
use utxo_block_emulator.Core.Account.{AccountState}
use utxo_block_emulator.Core.Transaction.{Transaction}
use utxo_block_emulator.Chain.TrieDb.{TrieDb}
use utxo_block_emulator.Chain.Ledger.{handle_txs}
use utxo_block_emulator.Chain.Ledger.Balances.{
  Table, write, credited, transferred, all_transferred, table, IsPlaced, handle_txs-transfers,
}

-- How often an address stands in a list, as a test for membership and for distinctness.
abbrev pub occurs : Bytes → List Bytes → ℕ
occurs k [] = 0
occurs k (j ∷ js) = if k == j then suc (occurs k js) else occurs k js

abbrev pub total : List Bytes → Table → ℤ
total [] b = pos 0
total (k ∷ ks) b = b k +ℤ total ks b

rotate : (a b c : ℤ) → a +ℤ b +ℤ c ≡ c +ℤ b +ℤ a
rotate a b c = omega int_laws

total-write_absent :
    (ks : List Bytes) (k : Bytes) (v : ℤ) (b : Table)
    → occurs k ks ≡ 0
    → total ks (write k v b) ≡ total ks b
total-write_absent [] k v b h = refl
total-write_absent (j ∷ ks) k v b h = ground (arith, total-write_absent ks k v b)

total-write :
    (ks : List Bytes) (k : Bytes) (v : ℤ) (b : Table)
    → occurs k ks ≡ 1
    → total ks (write k v b) +ℤ b k ≡ total ks b +ℤ v
total-write [] k v b h = ground arith
total-write (j ∷ ks) k v b h = grind (
  arith,
  total-write ks k v b,
  total-write_absent ks k v b,
  eq_iff k j,
  rotate v (total ks b) (b k),
  +ℤ_assoc (b j) (total ks (write k v b)) (b k),
  +ℤ_assoc (b j) (total ks b) v,
)

cancel : (x y z p q v : ℤ) → x +ℤ p ≡ y +ℤ (p +ℤ v) → y +ℤ q ≡ z +ℤ (q -ℤ v) → x ≡ z
cancel x y z p q v h k = omega (int_laws, parts_of_eq h, parts_of_eq k)

-- Moving `v` from one balance to another leaves the sum alone, also from an account to itself.
total-moved :
    (ks : List Bytes) (j k : Bytes) (v : ℤ) (b b' : Table)
    → b' ≡ write j (b j -ℤ v) b
    → occurs j ks ≡ 1
    → occurs k ks ≡ 1
    → total ks (write k (b' k +ℤ v) b') ≡ total ks b
total-moved ks j k v b b' e hj hk =
    cancel (total ks (write k (b' k +ℤ v) b')) (total ks b') (total ks b) (b' k) (b j) v
      (total-write ks k (b' k +ℤ v) b' hk)
      (ap (λ t. total ks t +ℤ b j) e ∙ total-write ks j (b j -ℤ v) b hj)

-- Both parties live on the shard, and stand once in the list of its accounts.
abbrev pub IsLocal : (Bytes → Bool) → List Bytes → Transaction → Type 0
IsLocal home ks tx =
    (tx.relayed ≡ false)
    × (home tx.sender ≡ true)
    × (home tx.recipient ≡ true)
    × (occurs tx.sender ks ≡ 1)
    × (occurs tx.recipient ks ≡ 1)

total-transferred :
    (home : Bytes → Bool) (ks : List Bytes) (tx : Transaction) (b : Table)
    → IsLocal home ks tx
    → total ks (transferred home tx b) ≡ total ks b
total-transferred home ks tx b (r, at, to, hj, hk) =
    elim (Bool-cases (ltb_ℤ (b tx.sender) tx.value)) [
      | inl h ↦ rw (transferred, r, at, h) refl
      | inr h ↦
          rw (transferred, credited, r, at, to, h)
            (total-moved ks tx.sender tx.recipient tx.value b
              (write tx.sender (b tx.sender -ℤ tx.value) b) refl hj hk)
    ]

total-all_transferred :
    (home : Bytes → Bool) (ks : List Bytes) (txs : List Transaction) (b : Table)
    → All (IsLocal home ks) txs
    → total ks (all_transferred home txs b) ≡ total ks b
total-all_transferred home ks [] b h = refl
total-all_transferred home ks (tx ∷ txs) b (l, h) =
    total-all_transferred home ks txs (transferred home tx b) h ∙ total-transferred home ks tx b l

NonNegative : Table → Type 0
NonNegative b = (k : Bytes) → pos 0 ≤ℤ b k

write-NonNegative :
    (k : Bytes) (v : ℤ) (b : Table) → pos 0 ≤ℤ v → NonNegative b → NonNegative (write k v b)
unfolding NonNegative
write-NonNegative k v b hv h j = elim (Bool-cases (k == j)) [
  | inl e ↦ rw (write, e) hv
  | inr e ↦ rw (write, e) (h j)
]

sum_nonneg : (a b : ℤ) → pos 0 ≤ℤ a → pos 0 ≤ℤ b → pos 0 ≤ℤ a +ℤ b
sum_nonneg a b h k = omega int_laws

difference_nonneg : (a b : ℤ) → b ≤ℤ a → pos 0 ≤ℤ a -ℤ b
difference_nonneg a b h = omega int_laws

credited-NonNegative :
    (home : Bytes → Bool) (tx : Transaction) (b : Table)
    → pos 0 ≤ℤ tx.value
    → NonNegative b
    → NonNegative (credited home tx b)
unfolding NonNegative
credited-NonNegative home tx b hv h = elim (Bool-cases (home tx.recipient || tx.has_broker)) [
  | inl e ↦
      rw (credited, e)
        (write-NonNegative tx.recipient (b tx.recipient +ℤ tx.value) b
          (sum_nonneg (b tx.recipient) tx.value (h tx.recipient) hv) h)
  | inr e ↦ rw (credited, e) h
]

transferred-NonNegative :
    (home : Bytes → Bool) (tx : Transaction) (b : Table)
    → pos 0 ≤ℤ tx.value
    → NonNegative b
    → NonNegative (transferred home tx b)
transferred-NonNegative home tx b hv h =
    elim (Bool-cases (not tx.relayed && (home tx.sender || tx.has_broker))) [
      | inl e ↦ elim (Bool-cases (ltb_ℤ (b tx.sender) tx.value)) [
        | inl l ↦ rw (transferred, e, l) h
        | inr l ↦
            rw (transferred, e, l)
              (credited-NonNegative home tx (write tx.sender (b tx.sender -ℤ tx.value) b) hv (
                write-NonNegative tx.sender (b tx.sender -ℤ tx.value) b
                  (difference_nonneg (b tx.sender) tx.value (ltb_ℤ→le (b tx.sender) tx.value l)) h))
      ]
      | inr e ↦ rw (transferred, e) (credited-NonNegative home tx b hv h)
    ]

all_transferred-NonNegative :
    (home : Bytes → Bool) (txs : List Transaction) (b : Table)
    → All (λ tx. pos 0 ≤ℤ tx.value) txs
    → NonNegative b
    → NonNegative (all_transferred home txs b)
all_transferred-NonNegative home [] b hv h = h
all_transferred-NonNegative home (tx ∷ txs) b (v, hv) h =
    all_transferred-NonNegative home txs (transferred home tx b) hv
      (transferred-NonNegative home tx b v h)

module _ (D : TrieDb AccountState) (partition : Bytes → Outcome ℕ) (init : ℤ) (shard_id : ℕ)
    (shard_of : Bytes → ℕ) where
  -- A block of transactions that are not relayed and whose parties live on this shard leaves the sum
  -- of the balances alone, over any list of accounts in which every party stands once, also where
  -- some of the senders cannot pay.
  pub handle_txs-conserves :
      (ks : List Bytes) (i : ℕ) (txs : List Transaction) (s : D.Trie × ℕ)
      → All (IsPlaced partition shard_of) txs
      → All (IsLocal (λ a. shard_of a == shard_id) ks) txs
      → (s' : D.Trie × ℕ) × (handle_txs D partition init shard_id i txs s ≡ ok s')
        × (total ks (table D init s'.0) ≡ total ks (table D init s.0))
  handle_txs-conserves ks i txs s placed here =
      let (s', made, same) =
        handle_txs-transfers D partition init shard_id shard_of i txs s placed in
      (
        s',
        made,
        ap (total ks) same
            ∙ total-all_transferred (λ a. shard_of a == shard_id) ks txs (table D init s.0) here,
      )

  -- Where no balance is negative, a block of transactions with known shards and no negative value
  -- leaves none negative, relayed transactions and those that cannot be paid included.
  pub handle_txs-nonnegative :
      (i : ℕ) (txs : List Transaction) (s : D.Trie × ℕ)
      → All (IsPlaced partition shard_of) txs
      → All (λ tx. pos 0 ≤ℤ tx.value) txs
      → ((k : Bytes) → pos 0 ≤ℤ table D init s.0 k)
      → (s' : D.Trie × ℕ) × (handle_txs D partition init shard_id i txs s ≡ ok s')
        × ((k : Bytes) → pos 0 ≤ℤ table D init s'.0 k)
  unfolding NonNegative
  handle_txs-nonnegative i txs s placed hv h =
      let (s', made, same) =
        handle_txs-transfers D partition init shard_id shard_of i txs s placed in
      (
        s',
        made,
        subst NonNegative (sym same)
            (all_transferred-NonNegative (λ a. shard_of a == shard_id) txs (table D init s.0) hv h),
      )
