-- ===== src/Partition/Recount.antt =====
-- partition/partition_CLPA.go, `changeShardRecompute`, against `ComputeEdges2Shard`.
use utxo_block_emulator.Base.{
  ℕ, ◌<◌, List, [], ◌∷◌, true, false, bytes_eq, nat_eq, ◌==◌, if◌then◌else◌, length, get_or, set,
  ◌≡◌, ◌≢◌, refl, ◌∙◌, arith, get_or-set, length-set, Bool-cases, inl, inr,
}
use utxo_block_emulator.Base.Int.{ℤ, pos, ◌+ℤ◌, ◌-ℤ◌, int_laws, parts_of_eq}
use utxo_block_emulator.Base.Outcome.{Yields, Yields-bind}
use utxo_block_emulator.Partition.Graph.{Vertex}
use utxo_block_emulator.Partition.Counting.{inc, dec, recount_neighbor, recount}
use utxo_block_emulator.Partition.Directed.{update_ok, along}

raised :
    (xs : List ℤ) (u k : ℕ)
    → u < length xs
    → get_or (set xs u (inc (get_or xs u (pos 0)))) k (pos 0)
      ≡ get_or xs k (pos 0) +ℤ pos (if u == k then 1 else 0)
unfolding ◌+ℤ◌
raised xs u k h = ground (arith, get_or-set xs u k (inc (get_or xs u (pos 0))) (pos 0) h)

lowered :
    (xs : List ℤ) (u k : ℕ)
    → u < length xs
    → get_or (set xs u (dec (get_or xs u (pos 0)))) k (pos 0)
      ≡ get_or xs k (pos 0) -ℤ pos (if u == k then 1 else 0)
unfolding ◌-ℤ◌
lowered xs u k h = ground (arith, get_or-set xs u k (dec (get_or xs u (pos 0))) (pos 0) h)

-- What a neighbour in shard `s` of a vertex that moved from `old` to `new` adds to shard `k`, what it takes
-- from it, and what it adds to and takes from the crossings.
abbrev pub gain : (new old s k : ℕ) → ℕ
gain new old s k = if s == new then 0 else if new == k then 1 else 0

abbrev pub loss : (new old s k : ℕ) → ℕ
loss new old s k = if s == old then 0 else if old == k then 1 else 0

abbrev pub hit : ℕ → ℕ → ℕ
hit a s = if s == a then 1 else 0

pub record Shifts (n : ℕ) (f g : ℕ → ℕ) (up down : ℕ) (c r : List ℤ × ℤ) : Type 0 where
  pub size : length r.0 ≡ n
  pub edges : (k : ℕ) → get_or r.0 k (pos 0) +ℤ pos (g k) ≡ get_or c.0 k (pos 0) +ℤ pos (f k)
  pub cross : r.1 +ℤ pos down ≡ c.1 +ℤ pos up

module _ (n new old : ℕ) (other : new ≢ old) (new_range : new < n) (old_range : old < n) where
  recount_neighbor-Shifts :
      (s : ℕ) (c : List ℤ × ℤ)
      → length c.0 ≡ n
      → Yields
          (Shifts n (gain new old s) (loss new old s) (hit old s) (hit new s) c)
          (recount_neighbor new old s c)
  unfolding recount_neighbor
  recount_neighbor-Shifts s (xs, c) l = elim (Bool-cases (s == new)) [
    | inl e ↦
        let g = not_old s e in
        (
          (set xs old (dec (get_or xs old (pos 0))), dec c),
          rw (e, recount_neighbor) (rw (update_ok old dec xs (pos 0) (omega arith)) refl),
          record {
            size = length-set xs old _ ∙ l;
            edges = λ k. rw (e, g) (omega (int_laws, parts_of_eq (lowered xs old k (omega arith))));
            cross = rw (e, g) (omega int_laws);
          },
        )
    | inr e ↦ elim (Bool-cases (s == old)) [
      | inl f ↦ (
        (set xs new (inc (get_or xs new (pos 0))), inc c),
        rw (e, f, recount_neighbor) (rw (update_ok new inc xs (pos 0) (omega arith)) refl),
        record {
          size = length-set xs new _ ∙ l;
          edges = λ k. rw (e, f) (omega (int_laws, parts_of_eq (raised xs new k (omega arith))));
          cross = rw (e, f) (omega int_laws);
        },
      )
      | inr f ↦
          let ys : List ℤ = set xs new (inc (get_or xs new (pos 0))) in
          let m : length ys ≡ n = length-set xs new _ ∙ l in
          (
            (set ys old (dec (get_or ys old (pos 0))), c),
            rw (e, f, recount_neighbor)
                (rw (update_ok new inc xs (pos 0) (omega arith))
                  (rw (update_ok old dec ys (pos 0) (omega (arith, m))) refl)),
            record {
              size = length-set ys old _ ∙ m;
              edges = λ k.
                  rw (e, f)
                    (omega (
                      int_laws,
                      parts_of_eq (raised xs new k (omega arith)),
                      parts_of_eq (lowered ys old k (omega (arith, m))),
                    ));
              cross = rw (e, f) (omega int_laws);
            },
          )
    ]
  ]
    where
      not_old : (s : ℕ) → (s == new) ≡ true → (s == old) ≡ false
      not_old s e = ground arith

  pub recount-Shifts :
      (p : Vertex → ℕ) (us : List Vertex) (c : List ℤ × ℤ)
      → length c.0 ≡ n
      → Yields
          (Shifts n
            (λ k. along (λ u. gain new old (p u) k) us)
            (λ k. along (λ u. loss new old (p u) k) us)
            (along (λ u. hit old (p u)) us)
            (along (λ u. hit new (p u)) us)
            c)
          (recount p new old us c)
  unfolding recount
  recount-Shifts p [] c l = (c, refl, record { size = l; edges = λ k. refl; cross = refl })
  recount-Shifts p (u ∷ us) c l =
      Yields-bind (recount_neighbor new old (p u) c) _ (recount_neighbor-Shifts (p u) c l) (λ c₁ g.
        let (c₂, e, h) = recount-Shifts p us c₁ g.size in
        (
          c₂,
          e,
          record {
            size = h.size;
            edges = λ k. omega (int_laws, parts_of_eq (g.edges k), parts_of_eq (h.edges k));
            cross = omega (int_laws, parts_of_eq g.cross, parts_of_eq h.cross);
          },
        ))
