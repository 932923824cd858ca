-- ===== src/Chain/UtxoSet/Spendable.antt =====
-- chain/utxo_set.go: what `FindSpendableOutputs` selects.
use utxo_block_emulator.Base.{
  ℕ, suc, List, [], ◌∷◌, ◌++◌, false, ◌≡◌, refl, sym, ap, ◌∙◌, Bytes, bytes_eq, nat_eq, ◌==◌, ◌⊎◌,
  inl, inr, if◌then◌else◌, arith, Bool-cases, subst, append_assoc, append-nil,
}
use utxo_block_emulator.Base.Int.{ℤ, pos, ◌+ℤ◌, ◌≤ℤ◌, ltb_ℤ, ltb_ℤ→le, +ℤ_assoc, zero-+ℤ, int_laws}
use utxo_block_emulator.Core.UtxoTransaction.{TxOut}
use utxo_block_emulator.Chain.Bucket.{Bucket}
use utxo_block_emulator.Chain.StatusTrie.Entries.{
  Entry, sum_of, ids_of, tagged, cited, cited-enter, tagged-append, ids_of-append, sum_of-append,
}
use utxo_block_emulator.Chain.UtxoSet.{scan_outputs, scan_bucket, find_spendable_outputs}

-- The outputs that pay to a key, with their transaction and index.
abbrev pub owned_of : Bytes → Bytes → ℕ → List TxOut → List Entry
owned_of k txid i [] = []
owned_of k txid i (o ∷ os) =
    (if k == o.pubkey_hash then record { txid = txid; index = pos i; value = o.value } ∷ [] else [])
    ++ owned_of k txid (suc i) os

abbrev pub owned : Bytes → List (Bytes × List TxOut) → List Entry
owned k [] = []
owned k ((txid, outs) ∷ rest) = owned_of k txid 0 outs ++ owned k rest

-- `t` is what a loop took of `own`: a prefix, which ends once the amount is reached.
record Selects (amount acc acc' : ℤ) (own t left : List Entry) : Type 0 where
  splits : own ≡ t ++ left
  added : acc' ≡ acc +ℤ sum_of t
  ends : (amount ≤ℤ acc') ⊎ (left ≡ [])

scan_outputs-stop :
    (k : Bytes) (amount acc : ℤ) (ids : List ℤ) (i : ℕ) (os : List TxOut)
    → ltb_ℤ acc amount ≡ false
    → scan_outputs k amount acc ids i os ≡ (acc, ids)
unfolding scan_outputs
scan_outputs-stop k amount acc ids i [] h = refl
scan_outputs-stop k amount acc ids i (o ∷ os) h = elim (Bool-cases (k == o.pubkey_hash)) [
  | inl e ↦ rw (e, h, scan_outputs) (scan_outputs-stop k amount acc ids (suc i) os h)
  | inr e ↦ rw (e, scan_outputs) (scan_outputs-stop k amount acc ids (suc i) os h)
]

scan_outputs-Selects :
    (k txid : Bytes) (amount acc : ℤ) (ids : List ℤ) (i : ℕ) (os : List TxOut)
    → (t left : List Entry) × Selects amount acc
        (scan_outputs k amount acc ids i os).0
        (owned_of k txid i os)
        t
        left
      × (tagged txid (scan_outputs k amount acc ids i os).1 ≡ tagged txid ids ++ ids_of t)
unfolding scan_outputs
scan_outputs-Selects k txid amount acc ids i [] = (
  [],
  [],
  record { splits = refl; added = omega int_laws; ends = inr refl },
  sym (append-nil (tagged txid ids)),
)
scan_outputs-Selects k txid amount acc ids i (o ∷ os) = elim (Bool-cases (k == o.pubkey_hash)) [
  | inr e ↦ rw (e, scan_outputs, owned_of) (scan_outputs-Selects k txid amount acc ids (suc i) os)
  | inl e ↦ elim (Bool-cases (ltb_ℤ acc amount)) [
    | inr full ↦
        rw (e, full, scan_outputs, owned_of, scan_outputs-stop k amount acc ids (suc i) os full)
          (
            [],
            here ∷ owned_of k txid (suc i) os,
            record { splits = refl; added = omega int_laws; ends = inl (ltb_ℤ→le acc amount full) },
            sym (append-nil (tagged txid ids)),
          )
    | inl room ↦
        let (t, left, h, n) =
          scan_outputs-Selects k txid amount (acc +ℤ o.value) (ids ++ (pos i ∷ [])) (suc i) os in
        rw (e, room, scan_outputs, owned_of)
          (
            here ∷ t,
            left,
            record {
              splits = ap (◌∷◌ here) h.splits;
              added = h.added ∙ +ℤ_assoc acc o.value (sum_of t);
              ends = h.ends;
            },
            n
                ∙ ap (λ l. l ++ ids_of t) (tagged-append txid ids (pos i ∷ []))
                ∙ append_assoc (tagged txid ids) ((txid, pos i) ∷ []) (ids_of t),
          )
  ]
]
  where
    here : Entry
    here = record { txid = txid; index = pos i; value = o.value }

scan_bucket-stop :
    (k : Bytes) (amount acc : ℤ) (l : List (Bytes × List TxOut))
    → amount ≤ℤ acc
    → scan_bucket k amount acc l ≡ (acc, [])
unfolding scan_bucket
scan_bucket-stop k amount acc [] h = refl
scan_bucket-stop k amount acc ((txid, outs) ∷ rest) h =
    rw (
      scan_outputs-stop k amount acc [] 0 outs (ground arith),
      scan_bucket-stop k amount acc rest h,
    )

scan_bucket-Selects :
    (k : Bytes) (amount acc : ℤ) (l : List (Bytes × List TxOut))
    → (t left : List Entry) × Selects amount acc (scan_bucket k amount acc l).0 (owned k l) t left
      × (cited (scan_bucket k amount acc l).1 ≡ ids_of t)
unfolding scan_bucket
scan_bucket-Selects k amount acc [] =
    ([], [], record { splits = refl; added = omega int_laws; ends = inr refl }, refl)
scan_bucket-Selects k amount acc ((txid, outs) ∷ rest) =
    let (t, left, h, n) = scan_outputs-Selects k txid amount acc [] 0 outs in
    elim h.ends [
      | inl full ↦
          let stop = scan_bucket-stop k amount (scan_outputs k amount acc [] 0 outs).0 rest full in
          (
            t,
            left ++ owned k rest,
            record {
              splits = ap (λ l. l ++ owned k rest) h.splits ∙ append_assoc t left (owned k rest);
              added = ap (λ p. p.0) stop ∙ h.added;
              ends = inl (subst (λ a. amount ≤ℤ a) (sym (ap (λ p. p.0) stop)) full);
            },
            cited-enter txid (scan_outputs k amount acc [] 0 outs).1
                  (scan_bucket k amount (scan_outputs k amount acc [] 0 outs).0 rest).1
                ∙ ap (λ p. tagged txid (scan_outputs k amount acc [] 0 outs).1 ++ cited p.1) stop
                ∙ append-nil _
                ∙ n,
          )
      | inr done ↦
          let (u, left', g, m) =
            scan_bucket-Selects k amount (scan_outputs k amount acc [] 0 outs).0 rest in
          (
            t ++ u,
            left',
            record {
              splits =
                  ap (λ l. l ++ owned k rest) (h.splits ∙ ap (λ l. t ++ l) done ∙ append-nil t)
                  ∙ ap (λ l. t ++ l) g.splits
                  ∙ sym (append_assoc t u left');
              added =
                  g.added
                  ∙ ap (λ n. n +ℤ sum_of u) h.added
                  ∙ +ℤ_assoc acc (sum_of t) (sum_of u)
                  ∙ ap (λ n. acc +ℤ n) (sym (sum_of-append t u));
              ends = g.ends;
            },
            cited-enter txid (scan_outputs k amount acc [] 0 outs).1
                  (scan_bucket k amount (scan_outputs k amount acc [] 0 outs).0 rest).1
                ∙ ap
                    (λ l.
                      l
                      ++ cited
                          (scan_bucket k amount (scan_outputs k amount acc [] 0 outs).0 rest).1)
                    n
                ∙ ap (λ l. ids_of t ++ l) m
                ∙ sym (ids_of-append t u),
          )
    ]

module _ (B : Bucket (List TxOut)) where
  -- The outputs selected are a prefix of those that pay to the key, in the cursor's order, named by
  -- their transaction and index; the amount reported is the sum of their values, and it reaches the
  -- amount asked unless every output of the key was selected.
  pub find_spendable_outputs-selects :
      (s : B.Store) (k : Bytes) (amount : ℤ)
      → let (accumulated, found) = find_spendable_outputs B s k amount in
        (t left : List Entry) × (owned k (B.cursor s) ≡ t ++ left)
        × (cited found ≡ ids_of t)
        × (accumulated ≡ sum_of t)
        × ((amount ≤ℤ accumulated) ⊎ (left ≡ []))
  unfolding find_spendable_outputs
  find_spendable_outputs-selects s k amount =
      let (t, left, h, n) = scan_bucket-Selects k amount (pos 0) (B.cursor s) in
      (t, left, h.splits, n, h.added ∙ zero-+ℤ (sum_of t), h.ends)
