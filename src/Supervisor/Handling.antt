-- ===== src/Supervisor/Handling.antt =====
-- supervisor/committee/committee_relay.go: `data2tx`, and the loop of `TxHandling` over the rows of the CSV file. The
-- result is the batches that it hands to `txSending`; the stop signal is reset with each.
use utxo_block_emulator.Base.{
  ℕ, zero, suc, List, [], ◌∷◌, ◌++◌, not, ◌&&◌, ◌||◌, Option, none, some, Bytes, bytes_eq, nat_eq,
  ◌==◌, if◌then◌else◌, ltb, length, get_elem?, drop,
}
use utxo_block_emulator.Base.Text.{codes}
use utxo_block_emulator.Base.Int.{ℤ}
use utxo_block_emulator.Base.Outcome.{Outcome, ok, or_panic, ◌>>=◌}
use utxo_block_emulator.Core.Transaction.{Transaction, new_transaction}

-- `data[i]`
abbrev pub field : ℕ → List Bytes → Outcome Bytes
field i row = or_panic (get_elem? row i)

-- `nowDataNum`, `txlist`, and the batches so far.
pub record Handling : Type 0 where
  pub now_data_num : ℕ
  pub tx_list : List Transaction
  pub batches : List (List Transaction)

-- `hash` is that of a transaction, and `parse` reads a decimal number.
module _ (hash : Transaction → Bytes) (parse : Bytes → Option ℤ) where
  -- `none` is the row that is passed over.
  unfoldable pub data2tx : List Bytes → ℕ → Outcome (Option Transaction)
  data2tx row nonce = do
    d6 ← field 6 row
    (if d6 == codes "0"
        then (do
          d7 ← field 7 row
          d3 ← field 3 row
          d4 ← field 4 row
          (if d7 == codes "0" && ltb 16 (length d3) && ltb 16 (length d4) && not (d3 == d4)
              then (do
                d8 ← field 8 row
                val ← or_panic (parse d8)
                ok (some (new_transaction hash (drop 2 d3) (drop 2 d4) val nonce)))
              else ok none))
        else ok none)

  module _ (batch total : ℕ) where
    unfoldable pub take_row : List Bytes → Handling → Outcome Handling
    unfolding data2tx
    take_row row h = do
      read ← data2tx row h.now_data_num
      ok (elim read [
        | none ↦ h
        | some tx ↦ record h { now_data_num = suc h.now_data_num; tx_list = h.tx_list ++ (tx ∷ []) }
      ])

    abbrev pub send_if_full : Handling → Handling
    send_if_full h =
        if length h.tx_list == batch || h.now_data_num == total
        then record h { tx_list = []; batches = h.batches ++ (h.tx_list ∷ []) }
        else h

    -- `rounds` is what is left of `TxInputCount`. The list is lost where the rows end.
    unfoldable pub tx_handling : (rounds : ℕ) → List (List Bytes) → Handling → Outcome Handling
    unfolding take_row
    tx_handling zero rows h = ok h
    tx_handling (suc rounds) [] h = ok h
    tx_handling (suc rounds) (row ∷ rows) h = do
      h₁ ← take_row row h
      (if (send_if_full h₁).now_data_num == total
          then ok (send_if_full h₁)
          else tx_handling rounds rows (send_if_full h₁))
