-- ===== src/Chain/StatusTrie/Spend.antt =====
-- chain/utxo_set.go: what `FindSpendableOutputsFromStatusTrie` takes out of an account.
use utxo_block_emulator.Base.{
  List, [], ◌∷◌, ◌++◌, false, some, ◌≡◌, refl, sym, ap, ◌∙◌, ◌⊎◌, inl, inr, Bytes, append_assoc,
  append-nil, Bool-cases, arith, subst,
}
use utxo_block_emulator.Base.Int.{
  ℤ, pos, ◌+ℤ◌, ◌-ℤ◌, ◌<ℤ◌, ◌≤ℤ◌, ltb_ℤ, int_laws, ltb_ℤ→lt, ltb_ℤ→le, +ℤ_assoc, -ℤ_assoc, zero-+ℤ,
  +ℤ_zero, +ℤ-sub_left,
}
use utxo_block_emulator.Base.GoMap.{GoMap}
use utxo_block_emulator.Core.Account.{UtxoAccountState}
use utxo_block_emulator.Chain.StatusTrie.{
  Outputs, Utxos, Taken, Found, take_outputs, take_utxos, spend, enter,
}
use utxo_block_emulator.Chain.StatusTrie.Entries.{
  Entry, entries_of, entries, sum_of, ids_of, tagged, cited, entries-enter, cited-enter,
  tagged-append, ids_of-append, sum_of-append,
}

-- `t` was taken, from `outs`, on top of what stood before.
record Takes (txid : Bytes) (amount acc bal : ℤ) (ids : List ℤ) (outs : Outputs) (r : Taken)
    (t : List Entry) : Type 0 where
  splits : entries_of txid outs ≡ t ++ entries_of txid r.left
  named : tagged txid r.out_ids ≡ tagged txid ids ++ ids_of t
  added : r.accumulated ≡ acc +ℤ sum_of t
  deducted : r.balance ≡ bal -ℤ sum_of t
  ends : (amount <ℤ r.accumulated) ⊎ (r.left ≡ [])

-- One more entry in front.
Takes-cons :
    (txid : Bytes) (amount acc bal : ℤ) (ids : List ℤ) (i v : ℤ) (outs : Outputs) (r : Taken)
    (t : List Entry)
    → Takes txid amount (acc +ℤ v) (bal -ℤ v) (ids ++ (i ∷ [])) outs r t
    → Takes txid amount acc bal ids
        ((i, v) ∷ outs)
        r
        (record { txid = txid; index = i; value = v } ∷ t)
Takes-cons txid amount acc bal ids i v outs r t h = record {
  splits = ap (◌∷◌ (record { txid = txid; index = i; value = v })) h.splits;
  named =
      h.named
      ∙ ap (λ l. l ++ ids_of t) (tagged-append txid ids (i ∷ []))
      ∙ append_assoc (tagged txid ids) ((txid, i) ∷ []) (ids_of t);
  added = h.added ∙ omega int_laws;
  deducted = h.deducted ∙ omega int_laws;
  ends = h.ends;
}

take_outputs-Takes :
    (txid : Bytes) (amount acc bal : ℤ) (ids : List ℤ) (outs : Outputs)
    → (t : List Entry) × Takes txid amount acc bal ids outs (take_outputs amount acc bal ids outs) t
unfolding take_outputs
take_outputs-Takes txid amount acc bal ids [] = (
  [],
  record {
    splits = refl;
    named = sym (append-nil (tagged txid ids));
    added = omega int_laws;
    deducted = omega int_laws;
    ends = inr refl;
  },
)
take_outputs-Takes txid amount acc bal ids ((i, v) ∷ outs) =
    elim (Bool-cases (ltb_ℤ amount (acc +ℤ v))) [
      | inl e ↦ rw e (
        record { txid = txid; index = i; value = v } ∷ [],
        Takes-cons txid amount acc bal ids i v outs _ [] (record {
          splits = refl;
          named = sym (append-nil (tagged txid (ids ++ (i ∷ []))));
          added = omega int_laws;
          deducted = omega int_laws;
          ends = inl (ltb_ℤ→lt amount (acc +ℤ v) e);
        }),
      )
      | inr e ↦
          let (t, h) =
            take_outputs-Takes txid amount (acc +ℤ v) (bal -ℤ v) (ids ++ (i ∷ [])) outs in
          rw e (
            record { txid = txid; index = i; value = v } ∷ t,
            Takes-cons txid amount acc bal ids i v outs _ t h,
          )
    ]

record Finds (amount acc bal : ℤ) (utxos : Utxos) (r : Found) (t : List Entry) : Type 0 where
  splits : entries utxos ≡ t ++ entries r.utxos
  named : cited r.unspent_outputs ≡ ids_of t
  added : r.accumulated ≡ acc +ℤ sum_of t
  deducted : r.balance ≡ bal -ℤ sum_of t
  ends : (amount <ℤ r.accumulated) ⊎ (entries r.utxos ≡ [])

module _ (amount acc bal : ℤ) (txid : Bytes) (outs : Outputs) (rest : Utxos) where
  abbrev first : Taken
  first = take_outputs amount acc bal [] outs

  stop-Finds :
      (t : List Entry)
      → Takes txid amount acc bal [] outs first t
      → amount <ℤ first.accumulated
      → Finds amount acc bal
          ((txid, outs) ∷ rest)
          (record {
            accumulated = first.accumulated;
            balance = first.balance;
            unspent_outputs = enter txid first.out_ids [];
            utxos = enter txid first.left rest;
          })
          t
  stop-Finds t h lt = record {
    splits =
        ap (λ l. l ++ entries rest) h.splits
        ∙ append_assoc t (entries_of txid first.left) (entries rest)
        ∙ ap (◌++◌ t) (sym (entries-enter txid first.left rest));
    named = cited-enter txid first.out_ids [] ∙ append-nil (tagged txid first.out_ids) ∙ h.named;
    added = h.added;
    deducted = h.deducted;
    ends = inl lt;
  }

  more-Finds :
      (t u : List Entry) (more : Found)
      → Takes txid amount acc bal [] outs first t
      → first.left ≡ []
      → Finds amount first.accumulated first.balance rest more u
      → Finds amount acc bal
          ((txid, outs) ∷ rest)
          (record {
            accumulated = more.accumulated;
            balance = more.balance;
            unspent_outputs = enter txid first.out_ids more.unspent_outputs;
            utxos = enter txid first.left more.utxos;
          })
          (t ++ u)
  more-Finds t u more h empty k = record {
    splits = parts;
    named = names;
    added = sums;
    deducted = left;
    ends = last;
  }
    where
      gone : entries (enter txid first.left more.utxos) ≡ entries more.utxos
      gone = ap (λ o. entries (enter txid o more.utxos)) empty

      sums : more.accumulated ≡ acc +ℤ sum_of (t ++ u)
      sums =
          k.added
          ∙ ap (λ n. n +ℤ sum_of u) h.added
          ∙ +ℤ_assoc acc (sum_of t) (sum_of u)
          ∙ ap (λ n. acc +ℤ n) (sym (sum_of-append t u))

      left : more.balance ≡ bal -ℤ sum_of (t ++ u)
      left =
          k.deducted
          ∙ ap (λ n. n -ℤ sum_of u) h.deducted
          ∙ -ℤ_assoc bal (sum_of t) (sum_of u)
          ∙ ap (λ n. bal -ℤ n) (sym (sum_of-append t u))

      parts :
          entries_of txid outs ++ entries rest
          ≡ (t ++ u) ++ entries (enter txid first.left more.utxos)
      parts =
          ap (λ l. l ++ entries rest)
            (h.splits ∙ ap (λ o. t ++ entries_of txid o) empty ∙ append-nil t)
          ∙ ap (◌++◌ t) k.splits
          ∙ sym (append_assoc t u (entries more.utxos))
          ∙ ap (λ l. (t ++ u) ++ l) (sym gone)

      names : cited (enter txid first.out_ids more.unspent_outputs) ≡ ids_of (t ++ u)
      names =
          cited-enter txid first.out_ids more.unspent_outputs
          ∙ ap (λ l. l ++ cited more.unspent_outputs) h.named
          ∙ ap (◌++◌ (ids_of t)) k.named
          ∙ sym (ids_of-append t u)

      last : (amount <ℤ more.accumulated) ⊎ (entries (enter txid first.left more.utxos) ≡ [])
      last = elim k.ends [ inl lt ↦ inl lt | inr none_left ↦ inr (gone ∙ none_left) ]

ends_empty :
    (amount a : ℤ) (left : Outputs)
    → ltb_ℤ amount a ≡ false
    → (amount <ℤ a) ⊎ (left ≡ [])
    → left ≡ []
ends_empty amount a left e (inl lt) = absurd (omega (arith, ltb_ℤ→le amount a e))
ends_empty amount a left e (inr n) = n

take_utxos-Finds :
    (amount acc bal : ℤ) (utxos : Utxos)
    → (t : List Entry) × Finds amount acc bal utxos (take_utxos amount acc bal utxos) t
unfolding take_utxos
take_utxos-Finds amount acc bal [] = (
  [],
  record {
    splits = refl;
    named = refl;
    added = omega int_laws;
    deducted = omega int_laws;
    ends = inr refl;
  },
)
take_utxos-Finds amount acc bal ((txid, outs) ∷ rest) =
    let (t, h) = take_outputs-Takes txid amount acc bal [] outs in
    let (u, k) =
      take_utxos-Finds amount (first amount acc bal txid outs rest).accumulated
        (first amount acc bal txid outs rest).balance rest in
    elim (Bool-cases (ltb_ℤ amount (first amount acc bal txid outs rest).accumulated)) [
      | inl e ↦
          rw (e, take_utxos) (t, stop-Finds amount acc bal txid outs rest t h (ltb_ℤ→lt amount _ e))
      | inr e ↦
          rw (e, take_utxos)
            (
              t ++ u,
              more-Finds amount acc bal txid outs rest t u _ h (ends_empty amount _ _ e h.ends) k,
            )
    ]

-- What the loops do to an account: the entries cited are a prefix of the account's entries and what
-- is left of the account is the rest, so nothing cited stays; the amount reported is the sum of the
-- cited values and is what the balance falls by; and the loops stop only once the amount is exceeded
-- or nothing is left.
pub spend-splits :
    (amount : ℤ) (s : UtxoAccountState)
    → let (found, s') = spend amount s in
      (t : List Entry) × (outs : GoMap Bytes (List ℤ)) × (found.unspent_outputs ≡ some outs)
      × (cited outs ≡ ids_of t)
      × (entries s.utxos ≡ t ++ entries s'.utxos)
      × (found.accumulated ≡ sum_of t)
      × (s'.balance ≡ s.balance -ℤ found.accumulated)
      × ((amount <ℤ found.accumulated) ⊎ (entries s'.utxos ≡ []))
unfolding spend
spend-splits amount s =
    let (t, h) = take_utxos-Finds amount (pos 0) s.balance s.utxos in
    let sum : (spend amount s).0.accumulated ≡ sum_of t = h.added ∙ zero-+ℤ (sum_of t) in
    (
      t,
      (take_utxos amount (pos 0) s.balance s.utxos).unspent_outputs,
      refl,
      h.named,
      h.splits,
      sum,
      h.deducted ∙ ap (λ n. s.balance -ℤ n) (sym sum),
      h.ends,
    )

-- The balance is the sum of the unspent outputs.
abbrev pub IsBalanced : UtxoAccountState → Type 0
IsBalanced s = s.balance ≡ sum_of (entries s.utxos)

-- An account whose balance is the sum of its outputs and at least the amount: the balance stays the sum,
-- and what is found is at least the amount.
pub spend-IsBalanced :
    (amount : ℤ) (s : UtxoAccountState)
    → IsBalanced s
    → amount ≤ℤ s.balance
    → IsBalanced (spend amount s).1 × (amount ≤ℤ (spend amount s).0.accumulated)
spend-IsBalanced amount s b enough =
    let (t, outs, e, c, splits, sum, fell, ends) = spend-splits amount s in
    let total : sum_of (entries s.utxos) ≡ sum_of t +ℤ sum_of (entries (spend amount s).1.utxos) =
      ap sum_of splits ∙ sum_of-append t (entries (spend amount s).1.utxos) in
    (
      fell
          ∙ ap (λ n. s.balance -ℤ n) sum
          ∙ ap (λ n. n -ℤ sum_of t) (b ∙ total)
          ∙ +ℤ-sub_left (sum_of t) (sum_of (entries (spend amount s).1.utxos)),
      elim ends [
        | inl lt ↦ omega arith
        | inr gone ↦
            subst (λ n. amount ≤ℤ n)
              (b ∙ total ∙ ap (λ l. sum_of t +ℤ sum_of l) gone ∙ +ℤ_zero (sum_of t) ∙ sym sum)
              enough
      ],
    )
