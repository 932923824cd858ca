-- ===== src/Pbft/Clpa/Compact.antt =====
-- consensus_shard/pbft_all/accountTransfer_module.go, `sendAccounts_and_Txs`: the loop that takes transactions
-- out of the queue in place.
use utxo_block_emulator.Base.{
  ℕ, suc, ◌≤◌, ◌<◌, ◌≡◌, refl, ap, ◌∙◌, arith, List, [], ◌∷◌, ◌++◌, Bool, not, some, length,
  get_elem?, set, take, drop, keep, append-nil, append_assoc, Bool-cases, inl, inr, length-drop,
  get_elem?-drop, drop-suc, drop-set, take-suc-set,
}
use utxo_block_emulator.Core.Transaction.{Transaction}
use utxo_block_emulator.Pbft.Clpa.Transfer.{compact}

module _ (goes : Transaction → Bool) where
  abbrev pub stays : Transaction → Bool
  stays tx = not (goes tx)

  -- Midway, `done` is at the front of the queue and `todo` is its rest.
  compact-midway :
      (todo : List Transaction) (second first : ℕ) (queue sent : List Transaction)
      → first ≤ second
      → drop second queue ≡ todo
      → compact goes (length todo) second first queue sent
        ≡ (take first queue ++ keep stays todo, sent ++ keep goes todo)
  unfolding compact
  compact-midway [] second first queue sent h e =
      rw (append-nil (take first queue), append-nil sent)
  compact-midway (x ∷ todo) second first queue sent h e =
      let found : get_elem? queue second ≡ some x = get_elem?-drop queue second x todo e in
      let rest : drop (suc second) queue ≡ todo = drop-suc queue second x todo e in
      let inside : first < length queue = omega (arith, length-drop second queue, ap length e) in
      elim (Bool-cases (goes x)) [
        | inl t ↦
            rw (found, t, keep, compact)
              (compact-midway todo (suc second) first queue (sent ++ (x ∷ [])) (omega arith) rest
                ∙ ap (λ l. (take first queue ++ keep stays todo, l))
                    (append_assoc sent (x ∷ []) (keep goes todo)))
        | inr t ↦
            rw (found, t, keep, compact)
              (compact-midway todo (suc second) (suc first) (set queue first x) sent (omega arith)
                  (drop-set queue first (suc second) x (omega arith) ∙ rest)
                ∙ ap (λ l. (l, sent ++ keep goes todo))
                    (ap (λ l. l ++ keep stays todo) (take-suc-set queue first x inside)
                      ∙ append_assoc (take first queue) (x ∷ []) (keep stays todo)))
      ]

  -- The loop that moves the transactions it keeps to the front of the queue, and then cuts the queue
  -- off, does what two filters do: those that go and those that stay, each in the order of the queue.
  pub compact-filters :
      (queue : List Transaction)
      → compact goes (length queue) 0 0 queue [] ≡ (keep stays queue, keep goes queue)
  compact-filters queue = compact-midway queue 0 0 queue [] (omega arith) refl
