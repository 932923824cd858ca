-- ===== src/Partition/Directed.antt =====
-- partition/partition_CLPA.go, `ComputeEdges2Shard`: what its loops add to the counts.
use utxo_block_emulator.Base.{
  ℕ, zero, suc, ◌+◌, ◌<◌, List, [], ◌∷◌, ◌++◌, bytes_eq, nat_eq, ◌==◌, if◌then◌else◌, length,
  get_or, set, ◌≡◌, refl, ◌∙◌, arith, get_or-set, get_elem?-get_or, length-set, eq_iff, Bool-cases,
  inl, inr,
}
use utxo_block_emulator.Base.GoMap
use utxo_block_emulator.Base.GoMap.{GoMap, lookup-insert}
use utxo_block_emulator.Base.Outcome.{ok, Yields, Yields-bind}
use utxo_block_emulator.Partition.Graph.{Vertex, EdgeSet, append_edge}
use utxo_block_emulator.Partition.Counting.{
  update, Counts, count_edge, count_neighbors, count_edges, sum,
}

pub update_ok :
    {A : Type 0} (k : ℕ) (f : A → A) (xs : List A) (d : A)
    → k < length xs
    → update k f xs ≡ ok (set xs k (f (get_or xs k d)))
unfolding update
update_ok k f xs d h = rw (get_elem?-get_or xs k d h, update) refl

-- What one neighbour in shard `u` of a vertex in shard `v` adds to the counts of shard `k`.
abbrev pub crossing : (v u k : ℕ) → ℕ
crossing v u k = if v == u then 0 else if u == k then 1 else 0

abbrev pub internal : (v u k : ℕ) → ℕ
internal v u k = if v == u then (if u == k then 1 else 0) else 0

-- The sum over a list of neighbours, and over an edge set.
abbrev pub along : (Vertex → ℕ) → List Vertex → ℕ
along f [] = 0
along f (u ∷ us) = f u + along f us

abbrev pub directed : (Vertex → Vertex → ℕ) → EdgeSet → ℕ
directed f [] = 0
directed f ((v, us) ∷ m) = along (f v) us + directed f m

-- Both counts have `n` places, and have grown by `f` and `g`, the first by `t` in all.
pub record Grows (n : ℕ) (f g : ℕ → ℕ) (t : ℕ) (c r : Counts) : Type 0 where
  pub size_cross : length r.cross ≡ n
  pub size_inter : length r.inter ≡ n
  pub cross : (k : ℕ) → get_or r.cross k 0 ≡ get_or c.cross k 0 + f k
  pub inter : (k : ℕ) → get_or r.inter k 0 ≡ get_or c.inter k 0 + g k
  pub total : sum r.cross ≡ sum c.cross + t

abbrev pub apart : (v u : ℕ) → ℕ
apart v u = if v == u then 0 else 1

sum-set : (xs : List ℕ) (u : ℕ) → u < length xs → sum (set xs u (suc (get_or xs u 0))) ≡ sum xs + 1
sum-set [] u h = absurd (omega arith)
sum-set (x ∷ xs) zero h = omega arith
sum-set (x ∷ xs) (suc u) h = omega (arith, sum-set xs u (omega arith))

bumped :
    (xs : List ℕ) (u k : ℕ)
    → u < length xs
    → get_or (set xs u (suc (get_or xs u 0))) k 0 ≡ get_or xs k 0 + (if u == k then 1 else 0)
bumped xs u k h = ground (arith, get_or-set xs u k (suc (get_or xs u 0)) 0 h)

count_edge-Grows :
    (n v u : ℕ) (c : Counts)
    → u < n
    → length c.cross ≡ n
    → length c.inter ≡ n
    → Yields (Grows n (crossing v u) (internal v u) (apart v u) c) (count_edge v u c)
unfolding count_edge
count_edge-Grows n v u c h lc li = elim (Bool-cases (v == u)) [
  | inl e ↦ (
    record c { inter = set c.inter u (suc (get_or c.inter u 0)) },
    rw (e, count_edge) (rw (update_ok u suc c.inter 0 (omega arith)) refl),
    record {
      size_cross = lc;
      size_inter = length-set c.inter u _ ∙ li;
      cross = λ k. rw e (omega arith);
      inter = λ k. rw e (bumped c.inter u k (omega arith));
      total = rw e (omega arith);
    },
  )
  | inr e ↦ (
    record c { cross = set c.cross u (suc (get_or c.cross u 0)) },
    rw (e, count_edge) (rw (update_ok u suc c.cross 0 (omega arith)) refl),
    record {
      size_cross = length-set c.cross u _ ∙ lc;
      size_inter = li;
      cross = λ k. rw e (bumped c.cross u k (omega arith));
      inter = λ k. rw e (omega arith);
      total = rw e (sum-set c.cross u (omega arith));
    },
  )
]

module _ (p : Vertex → ℕ) (n : ℕ) (range : (v : Vertex) → p v < n) where
  count_neighbors-Grows :
      (v : ℕ) (us : List Vertex) (c : Counts)
      → length c.cross ≡ n
      → length c.inter ≡ n
      → Yields
          (Grows n
            (λ k. along (λ u. crossing v (p u) k) us)
            (λ k. along (λ u. internal v (p u) k) us)
            (along (λ u. apart v (p u)) us)
            c)
          (count_neighbors p v us c)
  unfolding count_neighbors
  count_neighbors-Grows v [] c lc li = (
    c,
    refl,
    record {
      size_cross = lc;
      size_inter = li;
      cross = λ k. omega arith;
      inter = λ k. omega arith;
      total = omega arith;
    },
  )
  count_neighbors-Grows v (u ∷ us) c lc li =
      Yields-bind (count_edge v (p u) c) _ (count_edge-Grows n v (p u) c (range u) lc li) (λ c₁ g.
        let (c₂, e, h) = count_neighbors-Grows v us c₁ g.size_cross g.size_inter in
        (
          c₂,
          e,
          record {
            size_cross = h.size_cross;
            size_inter = h.size_inter;
            cross = λ k. omega (arith, g.cross k, h.cross k);
            inter = λ k. omega (arith, g.inter k, h.inter k);
            total = omega (arith, g.total, h.total);
          },
        ))

  pub count_edges-Grows :
      (m : EdgeSet) (c : Counts)
      → length c.cross ≡ n
      → length c.inter ≡ n
      → Yields
          (Grows n
            (λ k. directed (λ v u. crossing (p v) (p u) k) m)
            (λ k. directed (λ v u. internal (p v) (p u) k) m)
            (directed (λ v u. apart (p v) (p u)) m)
            c)
          (count_edges p m c)
  unfolding count_edges
  count_edges-Grows [] c lc li = (
    c,
    refl,
    record {
      size_cross = lc;
      size_inter = li;
      cross = λ k. omega arith;
      inter = λ k. omega arith;
      total = omega arith;
    },
  )
  count_edges-Grows ((v, us) ∷ m) c lc li =
      Yields-bind (count_neighbors p (p v) us c) _ (count_neighbors-Grows (p v) us c lc li) (λ c₁ g.
        let (c₂, e, h) = count_edges-Grows m c₁ g.size_cross g.size_inter in
        (
          c₂,
          e,
          record {
            size_cross = h.size_cross;
            size_inter = h.size_inter;
            cross = λ k. omega (arith, g.cross k, h.cross k);
            inter = λ k. omega (arith, g.inter k, h.inter k);
            total = omega (arith, g.total, h.total);
          },
        ))

-- The graph of a list of edges, each added by `AddEdge`, the last first.
abbrev pub edge_set_of : List (Vertex × Vertex) → EdgeSet
edge_set_of [] = []
edge_set_of ((a, b) ∷ es) = append_edge b a (append_edge a b (edge_set_of es))

pub along-append :
    (f : Vertex → ℕ) (us : List Vertex) (u : Vertex) → along f (us ++ (u ∷ [])) ≡ along f us + f u
along-append f [] u = omega arith
along-append f (w ∷ us) u = omega (arith, along-append f us u)

directed-insert :
    (f : Vertex → Vertex → ℕ) (u : Vertex) (us : List Vertex) (m : EdgeSet)
    → directed f (GoMap.insert u us m) + along (f u) (GoMap.get_or u [] m)
      ≡ directed f m + along (f u) us
unfolding GoMap.insert GoMap.get_or GoMap.lookup
directed-insert f u us [] = omega arith
directed-insert f u us ((v, vs) ∷ m) = ground (arith, eq_iff v u, directed-insert f u us m)

pub directed-append_edge :
    (f : Vertex → Vertex → ℕ) (u v : Vertex) (m : EdgeSet)
    → directed f (append_edge u v m) ≡ directed f m + f u v
unfolding append_edge
directed-append_edge f u v m = omega (
  arith,
  directed-insert f u (GoMap.get_or u [] m ++ (v ∷ [])) m,
  along-append (f u) (GoMap.get_or u [] m) v,
)
