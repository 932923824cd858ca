-- ===== src/Partition/Clpa.antt =====
-- partition/partition_CLPA.go: the state of the algorithm, its counts, and a run of it. Go's `int` has
-- 64 bits, and no count comes near 2^63.
use utxo_block_emulator.Base.{ℕ, zero, suc, ◌/◌, List, [], ◌∷◌, none, some, bytes_eq}
use utxo_block_emulator.Base.Int.{ℤ, pos}
use utxo_block_emulator.Base.GoMap
use utxo_block_emulator.Base.GoMap.{GoMap}
use utxo_block_emulator.Base.Outcome.{Outcome, ok, ◌>>=◌}
use utxo_block_emulator.Utils.{addr_to_shard}
use utxo_block_emulator.Partition.Graph
use utxo_block_emulator.Partition.Graph.{Vertex, Graph, neighbors, edges_of}
use utxo_block_emulator.Partition.Counting.{
  update, inc, Counts, count_edges, sum, add_halves, smallest, ints, no_counts, recount,
}

-- `W` is `float64`. A shard's number is not negative: a negative one is an index that panics.
pub record ClpaState (W : Type 0) : Type 0 where
  pub net_graph : Graph
  pub partition_map : GoMap Vertex ℕ
  pub edges_to_shard : List ℤ
  pub vertexs_num_in_shard : List ℤ
  pub weight_penalty : W
  pub min_edges_to_shard : ℤ
  pub max_iterations : ℕ
  pub cross_shard_edge_num : ℤ
  pub shard_num : ℕ

abbrev pub shard_of : {W : Type 0} → ClpaState W → Vertex → ℕ
shard_of cs v = GoMap.get_or v 0 cs.partition_map

unfoldable pub copy_partition : GoMap Vertex ℕ → GoMap Vertex ℕ → GoMap Vertex ℕ → GoMap Vertex ℕ
copy_partition [] src dst = dst
copy_partition ((v, _) ∷ vs) src dst =
    copy_partition vs src (GoMap.insert v (GoMap.get_or v 0 src) dst)

-- `copy` of `n` places: those that the source has, and zeros behind them.
unfoldable pub copy_ints : ℕ → List ℤ → List ℤ
copy_ints zero xs = []
copy_ints (suc n) [] = pos 0 ∷ copy_ints n []
copy_ints (suc n) (x ∷ xs) = x ∷ copy_ints n xs

module _ {W : Type 0} where
  -- `total` is the number of shards of `params`, which `Addr2Shard` reads.
  unfoldable pub clpa_add_vertex : (total : ℕ) → Vertex → ClpaState W → Outcome (ClpaState W)
  unfolding update
  clpa_add_vertex total v cs = do
    p ← elim (GoMap.lookup v cs.partition_map) [
      | none ↦ (do s ← addr_to_shard total v; ok (GoMap.insert v s cs.partition_map))
      | some s ↦ ok (GoMap.insert v s cs.partition_map)
    ]
    nums ← update (GoMap.get_or v 0 p) inc cs.vertexs_num_in_shard
    ok (record cs {
      net_graph = Graph.add_vertex v cs.net_graph;
      partition_map = p;
      vertexs_num_in_shard = nums;
    })

  unfoldable pub clpa_add_missing : (total : ℕ) → Vertex → ClpaState W → Outcome (ClpaState W)
  unfolding clpa_add_vertex
  clpa_add_missing total v cs = elim (GoMap.lookup v cs.net_graph.vertex_set) [
    | none ↦ clpa_add_vertex total v cs
    | some _ ↦ ok cs
  ]

  unfoldable pub clpa_add_edge : (total : ℕ) → Vertex → Vertex → ClpaState W → Outcome (ClpaState W)
  unfolding clpa_add_missing
  clpa_add_edge total u v cs = do
    cs₁ ← clpa_add_missing total u cs
    cs₂ ← clpa_add_missing total v cs₁
    ok (record cs₂ { net_graph = Graph.add_edge u v cs₂.net_graph })

  -- The slice `VertexsNumInShard` is shared with the source.
  unfoldable pub copy_clpa : (dst src : ClpaState W) → ClpaState W
  unfolding copy_partition copy_ints
  copy_clpa dst src = record dst {
    net_graph = Graph.copy_graph dst.net_graph src.net_graph;
    partition_map = copy_partition src.partition_map src.partition_map [];
    edges_to_shard = copy_ints src.shard_num src.edges_to_shard;
    vertexs_num_in_shard = src.vertexs_num_in_shard;
    weight_penalty = src.weight_penalty;
    min_edges_to_shard = src.min_edges_to_shard;
    max_iterations = src.max_iterations;
    shard_num = src.shard_num;
  }

  unfoldable pub with_counts : Counts → ClpaState W → ClpaState W
  with_counts c cs =
      let edges = ints (add_halves c.cross c.inter) in
      record cs {
        edges_to_shard = edges;
        cross_shard_edge_num = pos (sum c.cross / 2);
        min_edges_to_shard = smallest (pos 0x7fffffff) edges;
      }

  unfoldable pub compute_edges_to_shard : ClpaState W → Outcome (ClpaState W)
  unfolding count_edges with_counts
  compute_edges_to_shard cs = do
    c ← count_edges (shard_of cs) (edges_of cs.net_graph.edge_set) (no_counts cs.shard_num)
    ok (with_counts c cs)

  unfoldable pub change_shard_recompute : Vertex → (old : ℕ) → ClpaState W → Outcome (ClpaState W)
  unfolding recount
  change_shard_recompute v old cs = do
    (edges, cross) ←
        recount (shard_of cs) (shard_of cs v) old (neighbors v cs.net_graph)
          (cs.edges_to_shard, cs.cross_shard_edge_num)
    ok (record cs {
      edges_to_shard = edges;
      cross_shard_edge_num = cross;
      min_edges_to_shard = smallest (pos 0x7ffffffff) edges;
    })

  unfoldable pub erase_edges : ClpaState W → ClpaState W
  erase_edges cs = record cs {
    net_graph = record { vertex_set = cs.net_graph.vertex_set; edge_set = some [] };
  }
