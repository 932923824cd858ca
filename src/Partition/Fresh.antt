-- ===== src/Partition/Fresh.antt =====
-- partition/partition_CLPA.go: the counts that a state keeps, against those of its graph.
use utxo_block_emulator.Base.{
  ℕ, ◌<◌, List, [], ◌∷◌, none, bytes_eq, nat_eq, ◌==◌, if◌then◌else◌, ◌≡◌, ◌≢◌, refl, sym, ap, ◌∙◌,
  subst, arith, eq_of_get_or, eq_iff, ◌/◌, Bool-cases, inl, inr,
}
use utxo_block_emulator.Base.Int.{ℤ, pos}
use utxo_block_emulator.Base.GoMap
use utxo_block_emulator.Base.GoMap.{GoMap, lookup-insert}
use utxo_block_emulator.Base.Outcome.{ok, ok-injective, Yields, Yields-bind, ◌>>=◌}
use utxo_block_emulator.Partition.Graph
use utxo_block_emulator.Partition.Graph.{Vertex, EdgeSet, Graph, edges_of, neighbors}
use utxo_block_emulator.Partition.Counting.{
  recount, count_edges, no_counts, add_halves, ints, sum, smallest,
}
use utxo_block_emulator.Partition.Clpa.{
  ClpaState, shard_of, compute_edges_to_shard, change_shard_recompute, with_counts,
}
use utxo_block_emulator.Partition.Weight.{IsCount, count_edges-counts}
use utxo_block_emulator.Partition.Directed.{edge_set_of}
use utxo_block_emulator.Partition.Moved.{HasNoLoop, recount-IsCount}

-- The graph to which the edges were added, the last first.
abbrev pub graph_of : List (Vertex × Vertex) → Graph
graph_of [] = record { vertex_set = []; edge_set = none }
graph_of ((a, b) ∷ es) = Graph.add_edge a b (graph_of es)

edges_of-add_missing : (v : Vertex) (g : Graph) → (Graph.add_missing v g).edge_set ≡ g.edge_set
unfolding Graph.add_missing Graph.add_vertex
edges_of-add_missing v g = ground arith

edges_of-graph_of : (es : List (Vertex × Vertex)) → edges_of (graph_of es).edge_set ≡ edge_set_of es
unfolding Graph.add_edge
edges_of-graph_of [] = refl
edges_of-graph_of ((a, b) ∷ es) =
    ap (λ m. Graph.append_edge b a (Graph.append_edge a b m))
      (ap edges_of (
          edges_of-add_missing b (Graph.add_missing a (graph_of es))
          ∙ edges_of-add_missing a (graph_of es))
        ∙ edges_of-graph_of es)

-- Two counts of the same edges are the same.
IsCount-unique :
    {n : ℕ} {p : Vertex → ℕ} {es : List (Vertex × Vertex)} {xs ys : List ℤ} {c d : ℤ}
    → IsCount n p es xs c
    → IsCount n p es ys d
    → (xs ≡ ys) × (c ≡ d)
IsCount-unique {xs = xs} {ys = ys} a b = (
  eq_of_get_or xs ys (pos 0) (a.size ∙ sym b.size) (λ k. a.weights k ∙ sym (b.weights k)),
  a.crossed ∙ sym b.crossed,
)

module _ {W : Type 0} where
  -- `ComputeEdges2Shard` comes to an end on a graph of added edges whose vertices lie in the shards: it
  -- counts, for each shard, the edges that have an end in it, an edge inside the shard once, and the
  -- edges between two shards; it leaves the graph, the partition and the sizes of the shards alone.
  pub compute_edges_to_shard-counts :
      (cs : ClpaState W) (es : List (Vertex × Vertex))
      → edges_of cs.net_graph.edge_set ≡ edges_of (graph_of es).edge_set
      → ((v : Vertex) → shard_of cs v < cs.shard_num)
      → Yields
          (λ c.
            IsCount cs.shard_num (shard_of cs) es c.edges_to_shard c.cross_shard_edge_num
            × (c.net_graph ≡ cs.net_graph)
            × (c.partition_map ≡ cs.partition_map)
            × (c.vertexs_num_in_shard ≡ cs.vertexs_num_in_shard)
            × (c.shard_num ≡ cs.shard_num))
          (compute_edges_to_shard cs)
  unfolding compute_edges_to_shard with_counts
  compute_edges_to_shard-counts cs es graph range =
      Yields-bind
        (count_edges (shard_of cs) (edges_of cs.net_graph.edge_set) (no_counts cs.shard_num)) _
        (subst
          (λ m.
            Yields
              (λ c.
                IsCount cs.shard_num (shard_of cs) es (ints (add_halves c.cross c.inter))
                  (pos (sum c.cross / 2)))
              (count_edges (shard_of cs) m (no_counts cs.shard_num)))
          (sym (graph ∙ edges_of-graph_of es))
          (count_edges-counts (shard_of cs) cs.shard_num es range))
        (λ c h. (with_counts c cs, refl, (h, refl, refl, refl, refl)))

  -- The counts of the state are those that `ComputeEdges2Shard` would make.
  abbrev pub IsCounted : ClpaState W → Type 0
  IsCounted cs =
      Yields
        (λ c.
          (c.edges_to_shard ≡ cs.edges_to_shard)
          × (c.cross_shard_edge_num ≡ cs.cross_shard_edge_num))
        (compute_edges_to_shard cs)

  abbrev pub moved : Vertex → ℕ → ClpaState W → ClpaState W
  moved v new cs = record cs { partition_map = GoMap.insert v new cs.partition_map }

  shard_of-moved :
      (v x : Vertex) (new : ℕ) (cs : ClpaState W)
      → shard_of (moved v new cs) x ≡ (if v == x then new else shard_of cs x)
  unfolding GoMap.get_or
  shard_of-moved v x new cs = ground (arith, lookup-insert v x new cs.partition_map)

  counted :
      (cs : ClpaState W) (es : List (Vertex × Vertex))
      → edges_of cs.net_graph.edge_set ≡ edges_of (graph_of es).edge_set
      → ((x : Vertex) → shard_of cs x < cs.shard_num)
      → IsCounted cs
      → IsCount cs.shard_num (shard_of cs) es cs.edges_to_shard cs.cross_shard_edge_num
  counted cs es graph range (c, e, (s, t)) =
      let (c₀, e₀, (h, g, p, n, m)) = compute_edges_to_shard-counts cs es graph range in
      let same : c₀ ≡ c = ok-injective (sym e₀ ∙ e) in
      subst (λ z. IsCount cs.shard_num (shard_of cs) es cs.edges_to_shard z)
        (ap (λ x. x.cross_shard_edge_num) same ∙ t)
        (subst (λ xs. IsCount cs.shard_num (shard_of cs) es xs c₀.cross_shard_edge_num)
          (ap (λ x. x.edges_to_shard) same ∙ s) h)

  count-IsCounted :
      (cs : ClpaState W) (es : List (Vertex × Vertex))
      → edges_of cs.net_graph.edge_set ≡ edges_of (graph_of es).edge_set
      → ((x : Vertex) → shard_of cs x < cs.shard_num)
      → IsCount cs.shard_num (shard_of cs) es cs.edges_to_shard cs.cross_shard_edge_num
      → IsCounted cs
  count-IsCounted cs es graph range h =
      let (c, e, (g, n, p, s, m)) = compute_edges_to_shard-counts cs es graph range in
      (c, e, IsCount-unique g h)

  moved-in_range :
      (cs : ClpaState W) (v : Vertex) (new : ℕ)
      → ((x : Vertex) → shard_of cs x < cs.shard_num)
      → new < cs.shard_num
      → (x : Vertex) → shard_of (moved v new cs) x < cs.shard_num
  moved-in_range cs v new range fits x =
      subst (λ s. s < cs.shard_num) (sym (shard_of-moved v x new cs))
        (elim (Bool-cases (v == x)) [ inl e ↦ rw e fits | inr e ↦ rw e (range x) ])

  recounted :
      (cs : ClpaState W) (es : List (Vertex × Vertex)) (v : Vertex) (new : ℕ)
      → edges_of cs.net_graph.edge_set ≡ edges_of (graph_of es).edge_set
      → ((x : Vertex) → shard_of cs x < cs.shard_num)
      → new < cs.shard_num
      → new ≢ shard_of cs v
      → HasNoLoop v es
      → IsCounted cs
      → Yields
          (λ r. IsCount cs.shard_num (shard_of (moved v new cs)) es r.0 r.1)
          (recount
            (shard_of (moved v new cs))
            (shard_of (moved v new cs) v)
            (shard_of cs v)
            (neighbors v cs.net_graph)
            (cs.edges_to_shard, cs.cross_shard_edge_num))
  recounted cs es v new graph range fits other loops h =
      subst
        (λ m.
          Yields (λ r. IsCount cs.shard_num (shard_of (moved v new cs)) es r.0 r.1)
            (recount (shard_of (moved v new cs)) (shard_of (moved v new cs) v) (shard_of cs v)
              (GoMap.get_or v [] m) (cs.edges_to_shard, cs.cross_shard_edge_num)))
        (sym (graph ∙ edges_of-graph_of es))
        (subst
          (λ s.
            Yields (λ r. IsCount cs.shard_num (shard_of (moved v new cs)) es r.0 r.1)
              (recount (shard_of (moved v new cs)) s (shard_of cs v)
                (GoMap.get_or v [] (edge_set_of es)) (cs.edges_to_shard, cs.cross_shard_edge_num)))
          (sym (shard_of-moved v v new cs ∙ rw ((eq_iff v v).1 refl) refl))
          (recount-IsCount v (shard_of cs) (shard_of (moved v new cs)) new (shard_of cs v) other
            refl (λ x. shard_of-moved v x new cs) cs.shard_num es cs.edges_to_shard
            cs.cross_shard_edge_num fits (range v) loops (counted cs es graph range h)))

  abbrev with_recount : List ℤ × ℤ → ClpaState W → ClpaState W
  with_recount r cs = record cs {
    edges_to_shard = r.0;
    cross_shard_edge_num = r.1;
    min_edges_to_shard = smallest (pos 0x7ffffffff) r.0;
  }

  -- If the counts of a state are those of its graph, all vertices lie in the shards, and a vertex that
  -- has no edge to itself is moved to another shard, then `changeShardRecompute` comes to an end, and
  -- the counts that it leaves by looking at the vertex's neighbours alone are those that
  -- `ComputeEdges2Shard` would make anew.
  pub change_shard_recompute-IsCounted :
      (cs : ClpaState W) (es : List (Vertex × Vertex)) (v : Vertex) (new : ℕ)
      → edges_of cs.net_graph.edge_set ≡ edges_of (graph_of es).edge_set
      → ((x : Vertex) → shard_of cs x < cs.shard_num)
      → new < cs.shard_num
      → new ≢ shard_of cs v
      → HasNoLoop v es
      → IsCounted cs
      → Yields IsCounted (change_shard_recompute v (shard_of cs v) (moved v new cs))
  unfolding change_shard_recompute
  change_shard_recompute-IsCounted cs es v new graph range fits other loops h =
      let (r, e, k) = recounted cs es v new graph range fits other loops h in
      (
        with_recount r (moved v new cs),
        ap (λ m. m >>= λ c. ok (with_recount c (moved v new cs))) e,
        count-IsCounted (with_recount r (moved v new cs)) es graph
            (moved-in_range cs v new range fits) k,
      )
