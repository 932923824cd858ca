-- ===== src/Pbft/Clpa/Selected.antt =====
-- consensus_shard/pbft_all/accountTransfer_module.go, `sendAccounts_and_Txs`: the accounts of one shard, and the
-- transactions that go with them.
use utxo_block_emulator.Base.{
  ℕ, ◌+◌, ◌≡◌, refl, ap, ◌∙◌, subst, arith, List, [], ◌∷◌, ◌++◌, Bool, true, length, keep, All,
  Bool-cases, inl, inr, Bytes, bytes_eq, nat_eq, ◌==◌, eq_iff,
}
use utxo_block_emulator.Base.GoMap
use utxo_block_emulator.Base.GoMap.{GoMap}
use utxo_block_emulator.Core.Account.{AccountState}
use utxo_block_emulator.Core.Transaction.{Transaction}
use utxo_block_emulator.Pbft.Clpa.{
  ClpaOut, partition_ready_to, accounts_to, clpa_relay_to, clpa_block_info,
}
use utxo_block_emulator.Pbft.Clpa.Transfer.{contains, select_accounts, goes_along, decisive}
use utxo_block_emulator.Pbft.Clpa.Compact.{stays}

-- The transactions of the account messages.
abbrev pub sent_txs : List ClpaOut → List Transaction
sent_txs [] = []
sent_txs (accounts_to i at ∷ outs) = at.txs ++ sent_txs outs
sent_txs (partition_ready_to i pr ∷ outs) = sent_txs outs
sent_txs (clpa_relay_to i relay ∷ outs) = sent_txs outs
sent_txs (clpa_block_info info ∷ outs) = sent_txs outs

-- The map moves to the message's shard every account that decides one of its transactions.
abbrev pub IsFor : GoMap Bytes ℕ → ClpaOut → Type 0
IsFor m (accounts_to i at) = All (λ tx. GoMap.get_or (decisive tx) 0 m ≡ i) at.txs
IsFor m (partition_ready_to i pr) = Unit {0}
IsFor m (clpa_relay_to i relay) = Unit {0}
IsFor m (clpa_block_info info) = Unit {0}

module _ {A : Type 0} where
  pub All-keep :
      (P : A → Type 0) (p : A → Bool) (xs : List A)
      → ((x : A) → p x ≡ true → P x)
      → All P (keep p xs)
  All-keep P p [] h = tt
  All-keep P p (x ∷ xs) h = elim (Bool-cases (p x)) [
    | inl e ↦ rw (e, keep) (h x e, All-keep P p xs h)
    | inr e ↦ rw (e, keep) (All-keep P p xs h)
  ]

  pub All-kept : (P : A → Type 0) (p : A → Bool) (xs : List A) → All P xs → All P (keep p xs)
  All-kept P p [] h = tt
  All-kept P p (x ∷ xs) (a, h) = elim (Bool-cases (p x)) [
    | inl e ↦ rw (e, keep) (a, All-kept P p xs h)
    | inr e ↦ rw (e, keep) (All-kept P p xs h)
  ]

  pub All-swap :
      (R : ℕ → Type 0) (P : ℕ → A → Type 0) (xs : List A)
      → ((j : ℕ) → R j → All (P j) xs)
      → All (λ x. (j : ℕ) → R j → P j x) xs
  All-swap R P [] h = tt
  All-swap R P (x ∷ xs) h = (λ j r. (h j r).0, All-swap R P xs (λ j r. (h j r).1))

  pub All-map : (P Q : A → Type 0) (xs : List A) → ((x : A) → P x → Q x) → All P xs → All Q xs
  All-map P Q [] f h = tt
  All-map P Q (x ∷ xs) f (a, h) = (f x a, All-map P Q xs f h)

  pub length-keep_append :
      (p : A → Bool) (xs ys : List A)
      → length (keep p (xs ++ ys)) ≡ length (keep p xs) + length (keep p ys)
  length-keep_append p [] ys = omega arith
  length-keep_append p (x ∷ xs) ys = ground (arith, length-keep_append p xs ys)

pub length-keep_split :
    (goes p : Transaction → Bool) (xs : List Transaction)
    → length (keep p xs) ≡ length (keep p (keep (stays goes) xs)) + length (keep p (keep goes xs))
length-keep_split goes p [] = omega arith
length-keep_split goes p (x ∷ xs) = elim (Bool-cases (goes x)) [
  | inl e ↦ rw (e, keep) (ground (arith, length-keep_split goes p xs))
  | inr e ↦ rw (e, keep) (ground (arith, length-keep_split goes p xs))
]

pub goes-decisive :
    (addrs : List Bytes) (tx : Transaction) → goes_along addrs tx ≡ contains addrs (decisive tx)
goes-decisive addrs tx = elim (Bool-cases tx.relayed) [
  | inl e ↦ rw e (ground arith)
  | inr e ↦ rw e (ground arith)
]

module _ (m : GoMap Bytes ℕ) (i : ℕ) where
  pub select-moves :
      (addrs : List Bytes) (states : List AccountState) (a : Bytes)
      → contains (select_accounts m i addrs states).0 a ≡ true
      → GoMap.get_or a 0 m ≡ i
  unfolding select_accounts
  select-moves [] states a h = cc
  select-moves (b ∷ addrs) [] a h = cc
  select-moves (b ∷ addrs) (s ∷ states) a h = elim (Bool-cases (GoMap.get_or b 0 m == i)) [
    | inl e ↦ elim (Bool-cases (b == a)) [
      | inl t ↦
          subst (λ x. GoMap.get_or x 0 m ≡ i) ((eq_iff b a).0 t)
            ((eq_iff (GoMap.get_or b 0 m) i).0 e)
      | inr t ↦ select-moves addrs states a (rw (e, t, select_accounts) at h)
    ]
    | inr e ↦ select-moves addrs states a (rw (e, select_accounts) at h)
  ]

  pub select-all :
      (addrs : List Bytes) (states : List AccountState) (a : Bytes)
      → length addrs ≡ length states
      → contains addrs a ≡ true
      → GoMap.get_or a 0 m ≡ i
      → contains (select_accounts m i addrs states).0 a ≡ true
  unfolding select_accounts
  select-all [] states a l h e = h
  select-all (b ∷ addrs) [] a l h e = absurd (omega (arith, l))
  select-all (b ∷ addrs) (s ∷ states) a l h e = elim (Bool-cases (b == a)) [
    | inl t ↦
        let here : (GoMap.get_or b 0 m == i) ≡ true =
          (eq_iff (GoMap.get_or b 0 m) i).1 (ap (λ x. GoMap.get_or x 0 m) ((eq_iff b a).0 t) ∙ e) in
        rw (here, select_accounts) (rw t refl)
    | inr t ↦
        let later = select-all addrs states a (omega (arith, l)) (rw t at h) e in
        elim (Bool-cases (GoMap.get_or b 0 m == i)) [
          | inl u ↦ rw (u, select_accounts) (rw t later)
          | inr u ↦ rw (u, select_accounts) later
        ]
  ]
