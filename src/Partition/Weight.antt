-- ===== src/Partition/Weight.antt =====
-- partition/partition_CLPA.go, `ComputeEdges2Shard`, against the edges that were added to the graph.
use utxo_block_emulator.Base.{
  ℕ, zero, suc, ◌+◌, ◌*◌, ◌/◌, ◌<◌, List, [], ◌∷◌, bytes_eq, nat_eq, ◌==◌, if◌then◌else◌, ◌||◌,
  length, get_or, replicate, ◌≡◌, refl, sym, ap, ◌∙◌, arith, length-replicate,
}
use utxo_block_emulator.Base.Int.{ℤ, pos}
use utxo_block_emulator.Base.Outcome.{Yields}
use utxo_block_emulator.Partition.Graph.{Vertex, append_edge}
use utxo_block_emulator.Partition.Counting.{count_edges, sum, add_halves, ints, no_counts}
use utxo_block_emulator.Partition.Directed.{
  crossing, internal, directed, apart, count_edges-Grows, edge_set_of, directed-append_edge,
}

-- The sum over both directions of each edge.
abbrev pub both_ways : (Vertex → Vertex → ℕ) → List (Vertex × Vertex) → ℕ
both_ways f [] = 0
both_ways f ((a, b) ∷ es) = f a b + f b a + both_ways f es

pub directed-edge_set_of :
    (f : Vertex → Vertex → ℕ) (es : List (Vertex × Vertex))
    → directed f (edge_set_of es) ≡ both_ways f es
directed-edge_set_of f [] = refl
directed-edge_set_of f ((a, b) ∷ es) = omega (
  arith,
  directed-append_edge f b a (append_edge a b (edge_set_of es)),
  directed-append_edge f a b (edge_set_of es),
  directed-edge_set_of f es,
)

-- The counts of the code, on the edges: an edge inside a shard is seen from both its ends.
abbrev crossings : (Vertex → ℕ) → ℕ → List (Vertex × Vertex) → ℕ
crossings p k [] = 0
crossings p k ((a, b) ∷ es) = crossing (p a) (p b) k + crossing (p b) (p a) k + crossings p k es

abbrev internals : (Vertex → ℕ) → ℕ → List (Vertex × Vertex) → ℕ
internals p k [] = 0
internals p k ((a, b) ∷ es) = internal (p a) (p b) k + internals p k es

-- The edges that a shard has an end of.
abbrev pub weight : (Vertex → ℕ) → ℕ → List (Vertex × Vertex) → ℕ
weight p k [] = 0
weight p k ((a, b) ∷ es) = (if p a == k || p b == k then 1 else 0) + weight p k es

-- The edges between two shards.
abbrev pub cut : (Vertex → ℕ) → List (Vertex × Vertex) → ℕ
cut p [] = 0
cut p ((a, b) ∷ es) = (if p a == p b then 0 else 1) + cut p es

both_ways-crossings :
    (p : Vertex → ℕ) (k : ℕ) (es : List (Vertex × Vertex))
    → both_ways (λ v u. crossing (p v) (p u) k) es ≡ crossings p k es
both_ways-crossings p k [] = refl
both_ways-crossings p k ((a, b) ∷ es) = omega (arith, both_ways-crossings p k es)

both_ways-internals :
    (p : Vertex → ℕ) (k : ℕ) (es : List (Vertex × Vertex))
    → both_ways (λ v u. internal (p v) (p u) k) es ≡ 2 * internals p k es
both_ways-internals p k [] = omega arith
both_ways-internals p k ((a, b) ∷ es) = ground (arith, both_ways-internals p k es)

weight-split :
    (p : Vertex → ℕ) (k : ℕ) (es : List (Vertex × Vertex))
    → crossings p k es + internals p k es ≡ weight p k es
weight-split p k [] = omega arith
weight-split p k ((a, b) ∷ es) = ground (arith, weight-split p k es)

both_ways-apart :
    (p : Vertex → ℕ) (es : List (Vertex × Vertex))
    → both_ways (λ v u. apart (p v) (p u)) es ≡ 2 * cut p es
both_ways-apart p [] = omega arith
both_ways-apart p ((a, b) ∷ es) = ground (arith, both_ways-apart p es)

get_or-add_halves :
    (xs ys : List ℕ) (k : ℕ)
    → length xs ≡ length ys
    → get_or (add_halves xs ys) k 0 ≡ get_or xs k 0 + get_or ys k 0 / 2
get_or-add_halves [] [] k h = omega arith
get_or-add_halves [] (y ∷ ys) k h = absurd (omega arith)
get_or-add_halves (x ∷ xs) [] k h = absurd (omega arith)
get_or-add_halves (x ∷ xs) (y ∷ ys) zero h = refl
get_or-add_halves (x ∷ xs) (y ∷ ys) (suc k) h = get_or-add_halves xs ys k (omega arith)

length-add_halves : (xs ys : List ℕ) → length (add_halves xs ys) ≡ length xs
length-add_halves [] ys = refl
length-add_halves (x ∷ xs) [] = refl
length-add_halves (x ∷ xs) (y ∷ ys) = ap suc (length-add_halves xs ys)

get_or-ints : (xs : List ℕ) (k : ℕ) → get_or (ints xs) k (pos 0) ≡ pos (get_or xs k 0)
get_or-ints [] k = refl
get_or-ints (x ∷ xs) zero = refl
get_or-ints (x ∷ xs) (suc k) = get_or-ints xs k

length-ints : (xs : List ℕ) → length (ints xs) ≡ length xs
length-ints [] = refl
length-ints (x ∷ xs) = ap suc (length-ints xs)

get_or-zeros : (n k : ℕ) → ◌≡◌ {A = ℕ} (get_or (replicate n 0) k 0) 0
get_or-zeros zero k = refl
get_or-zeros (suc n) zero = refl
get_or-zeros (suc n) (suc k) = get_or-zeros n k

sum-zeros : (n : ℕ) → sum (replicate n 0) ≡ 0
sum-zeros zero = refl
sum-zeros (suc n) = omega (arith, sum-zeros n)

-- What the counts of the edges `es` are, in the form that the state keeps.
pub record IsCount (n : ℕ) (p : Vertex → ℕ) (es : List (Vertex × Vertex)) (edges : List ℤ)
    (cross : ℤ) : Type 0 where
  pub size : length edges ≡ n
  pub weights : (k : ℕ) → get_or edges k (pos 0) ≡ pos (weight p k es)
  pub crossed : cross ≡ pos (cut p es)

pub count_edges-counts :
    (p : Vertex → ℕ) (n : ℕ) (es : List (Vertex × Vertex))
    → ((v : Vertex) → p v < n)
    → Yields
        (λ c. IsCount n p es (ints (add_halves c.cross c.inter)) (pos (sum c.cross / 2)))
        (count_edges p (edge_set_of es) (no_counts n))
count_edges-counts p n es range =
    let (c, e, g) =
      count_edges-Grows p n range (edge_set_of es) (no_counts n) (length-replicate n 0)
        (length-replicate n 0) in
    (
      c,
      e,
      record {
        size =
            length-ints (add_halves c.cross c.inter)
            ∙ length-add_halves c.cross c.inter
            ∙ g.size_cross;
        weights = λ k.
            get_or-ints (add_halves c.cross c.inter) k
            ∙ ap pos (
                omega (
                  arith,
                  get_or-add_halves c.cross c.inter k (g.size_cross ∙ sym g.size_inter),
                  g.cross k,
                  g.inter k,
                  get_or-zeros n k,
                  directed-edge_set_of (λ v u. crossing (p v) (p u) k) es,
                  directed-edge_set_of (λ v u. internal (p v) (p u) k) es,
                  both_ways-crossings p k es,
                  both_ways-internals p k es,
                  weight-split p k es,
                ));
        crossed = ap pos (
            omega (
              arith,
              g.total,
              sum-zeros n,
              directed-edge_set_of (λ v u. apart (p v) (p u)) es,
              both_ways-apart p es,
            ));
      },
    )
