-- ===== src/Chain/StatusTrie/Entries.antt =====
-- The unspent outputs of an account, as one list of entries in the order in which the maps are
-- visited, and what is cited of them.
use utxo_block_emulator.Base.{List, [], ◌∷◌, ◌++◌, ◌≡◌, refl, sym, ap, ◌∙◌, Bytes}
use utxo_block_emulator.Base.Int.{ℤ, pos, ◌+ℤ◌, +ℤ_assoc, zero-+ℤ}
use utxo_block_emulator.Base.GoMap.{GoMap}
use utxo_block_emulator.Chain.StatusTrie.{Outputs, Utxos, enter}

pub record Entry : Type 0 where
  pub txid : Bytes
  pub index : ℤ
  pub value : ℤ

abbrev pub entries_of : Bytes → Outputs → List Entry
entries_of txid [] = []
entries_of txid ((i, v) ∷ outs) =
    record { txid = txid; index = i; value = v } ∷ entries_of txid outs

abbrev pub entries : Utxos → List Entry
entries [] = []
entries ((txid, outs) ∷ m) = entries_of txid outs ++ entries m

abbrev pub sum_of : List Entry → ℤ
sum_of [] = pos 0
sum_of (e ∷ es) = e.value +ℤ sum_of es

-- An output is named by its transaction and its index.
abbrev pub ids_of : List Entry → List (Bytes × ℤ)
ids_of [] = []
ids_of (e ∷ es) = (e.txid, e.index) ∷ ids_of es

abbrev pub tagged : Bytes → List ℤ → List (Bytes × ℤ)
tagged txid [] = []
tagged txid (i ∷ is) = (txid, i) ∷ tagged txid is

abbrev pub cited : GoMap Bytes (List ℤ) → List (Bytes × ℤ)
cited [] = []
cited ((txid, is) ∷ m) = tagged txid is ++ cited m

pub entries-enter :
    (txid : Bytes) (outs : Outputs) (m : Utxos)
    → entries (enter txid outs m) ≡ entries_of txid outs ++ entries m
entries-enter txid [] m = refl
entries-enter txid ((i, v) ∷ outs) m = refl

pub cited-enter :
    (txid : Bytes) (is : List ℤ) (m : GoMap Bytes (List ℤ))
    → cited (enter txid is m) ≡ tagged txid is ++ cited m
cited-enter txid [] m = refl
cited-enter txid (i ∷ is) m = refl

pub tagged-append :
    (txid : Bytes) (is js : List ℤ) → tagged txid (is ++ js) ≡ tagged txid is ++ tagged txid js
tagged-append txid [] js = refl
tagged-append txid (i ∷ is) js = ap (◌∷◌ (txid, i)) (tagged-append txid is js)

pub ids_of-append : (as' bs : List Entry) → ids_of (as' ++ bs) ≡ ids_of as' ++ ids_of bs
ids_of-append [] bs = refl
ids_of-append (a ∷ as') bs = ap (◌∷◌ (a.txid, a.index)) (ids_of-append as' bs)

pub sum_of-append : (as' bs : List Entry) → sum_of (as' ++ bs) ≡ sum_of as' +ℤ sum_of bs
sum_of-append [] bs = sym (zero-+ℤ (sum_of bs))
sum_of-append (a ∷ as') bs =
    ap (λ n. a.value +ℤ n) (sum_of-append as' bs) ∙ sym (+ℤ_assoc a.value (sum_of as') (sum_of bs))
