-- ===== src/Partition/Counting.antt =====
-- partition/partition_CLPA.go: the loops that count edges, in `ComputeEdges2Shard` and in
-- `changeShardRecompute`. An index out of range panics.
use utxo_block_emulator.Base.{
  ℕ, suc, ◌+◌, ◌/◌, List, [], ◌∷◌, not, ◌&&◌, none, some, nat_eq, ◌==◌, if◌then◌else◌, get_elem?,
  set, replicate,
}
use utxo_block_emulator.Base.Int.{ℤ, pos, ◌+ℤ◌, ◌-ℤ◌, ltb_ℤ}
use utxo_block_emulator.Base.Outcome.{Outcome, ok, panic, or_panic, ◌>>=◌}
use utxo_block_emulator.Partition.Graph.{Vertex, EdgeSet}

-- `xs[k]`, and `xs[k] = f(xs[k])`
unfoldable pub at : {A : Type 0} → ℕ → List A → Outcome A
at k xs = or_panic (get_elem? xs k)

unfoldable pub update : {A : Type 0} → ℕ → (A → A) → List A → Outcome (List A)
update k f xs = elim (get_elem? xs k) [ none ↦ panic | some x ↦ ok (set xs k (f x)) ]

abbrev pub inc : ℤ → ℤ
inc z = z +ℤ pos 1

abbrev pub dec : ℤ → ℤ
dec z = z -ℤ pos 1

-- The two counts of `ComputeEdges2Shard`, which are not negative.
pub record Counts : Type 0 where
  pub cross : List ℕ
  pub inter : List ℕ

-- One neighbour in shard `u` of a vertex in shard `v`.
unfoldable pub count_edge : (v u : ℕ) → Counts → Outcome Counts
unfolding update
count_edge v u c =
    if not (v == u)
    then (do xs ← update u suc c.cross; ok (record c { cross = xs }))
    else (do xs ← update u suc c.inter; ok (record c { inter = xs }))

module _ (p : Vertex → ℕ) where
  unfoldable pub count_neighbors : ℕ → List Vertex → Counts → Outcome Counts
  unfolding count_edge
  count_neighbors v [] c = ok c
  count_neighbors v (u ∷ us) c = do c' ← count_edge v (p u) c; count_neighbors v us c'

  unfoldable pub count_edges : EdgeSet → Counts → Outcome Counts
  unfolding count_neighbors
  count_edges [] c = ok c
  count_edges ((v, us) ∷ m) c = do c' ← count_neighbors (p v) us c; count_edges m c'

abbrev pub sum : List ℕ → ℕ
sum [] = 0
sum (x ∷ xs) = x + sum xs

-- `cs.Edges2Shard[idx] += interEdge[idx] / 2`
abbrev pub add_halves : List ℕ → List ℕ → List ℕ
add_halves [] ys = []
add_halves (x ∷ xs) [] = x ∷ xs
add_halves (x ∷ xs) (y ∷ ys) = (x + y / 2) ∷ add_halves xs ys

-- The smallest, from a start.
abbrev pub smallest : ℤ → List ℤ → ℤ
smallest m [] = m
smallest m (x ∷ xs) = smallest (if ltb_ℤ x m then x else m) xs

abbrev pub ints : List ℕ → List ℤ
ints [] = []
ints (x ∷ xs) = pos x ∷ ints xs

abbrev pub no_counts : ℕ → Counts
no_counts n = record { cross = replicate n 0; inter = replicate n 0 }

-- One neighbour in shard `s` of a vertex that moved from `old` to `new`.
unfoldable pub recount_neighbor : (new old s : ℕ) → List ℤ × ℤ → Outcome (List ℤ × ℤ)
unfolding update
recount_neighbor new old s (edges, cross) =
    if not (s == new) && not (s == old)
    then (do e₁ ← update new inc edges; e₂ ← update old dec e₁; ok (e₂, cross))
    else if s == new
    then (do e₁ ← update old dec edges; ok (e₁, dec cross))
    else (do e₁ ← update new inc edges; ok (e₁, inc cross))

unfoldable pub recount :
    (p : Vertex → ℕ) (new old : ℕ) → List Vertex → List ℤ × ℤ → Outcome (List ℤ × ℤ)
unfolding recount_neighbor
recount p new old [] c = ok c
recount p new old (u ∷ us) c = do c' ← recount_neighbor new old (p u) c; recount p new old us c'
