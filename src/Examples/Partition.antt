-- ===== src/Examples/Partition.antt =====
-- Runs of the CLPA algorithm, and each of its theorems at an input.
use utxo_block_emulator.Base.{
  ℕ, ◌*◌, ◌-◌, ◌/◌, ◌<◌, ◌≡◌, ◌≢◌, refl, List, [], ◌∷◌, none, Bytes, bytes_eq, bytes_beq, nat_eq,
  ◌==◌, ltb, length, arith, Bool-cases, inl, inr, All,
}
use utxo_block_emulator.Base.Text.{codes}
use utxo_block_emulator.Base.Int.{ℤ, pos, negsuc, ◌+ℤ◌, ◌-ℤ◌}
use utxo_block_emulator.Base.GoMap
use utxo_block_emulator.Base.GoMap.{GoMap}
use utxo_block_emulator.Base.Outcome.{Outcome, ok, panic, ◌>>=◌, Yields}
use utxo_block_emulator.Partition.Graph
use utxo_block_emulator.Partition.Graph.{Vertex, Graph, edges_of, neighbors}
use utxo_block_emulator.Partition.Counting.{count_edges, update}
use utxo_block_emulator.Partition.Clpa.{
  ClpaState, shard_of, compute_edges_to_shard, change_shard_recompute,
}
use utxo_block_emulator.Partition.Labels.{Floats, Labelling, init_shard, visit, clpa_partition}
use utxo_block_emulator.Partition.Weight.{cut, IsCount}
use utxo_block_emulator.Partition.Moved.{HasNoLoop}
use utxo_block_emulator.Partition.Fresh.{
  graph_of, compute_edges_to_shard-counts, IsCounted, moved, change_shard_recompute-IsCounted,
}
use utxo_block_emulator.Partition.Run.{clpa_partition-reports}

-- Fixed-point numbers with two decimals.
abbrev fixed : Floats ℕ
fixed = record {
  of_int = λ z. elim z [ pos n ↦ 100 * n | negsuc n ↦ 0 ];
  of_nat = λ n. 100 * n;
  mul = λ a b. a * b / 100;
  div = λ a b. 100 * a / b;
  sub = λ a b. a - b;
  lt = ltb;
  lowest = 0;
}

abbrev vertex_a : Vertex
vertex_a = codes "00000000"

abbrev vertex_b : Vertex
vertex_b = codes "00000001"

abbrev vertex_c : Vertex
vertex_c = codes "0000000a"

abbrev vertex_d : Vertex
vertex_d = codes "0000000b"

abbrev edges : List (Vertex × Vertex)
edges =
    (vertex_c, vertex_d) ∷ (vertex_a, vertex_c) ∷ (vertex_b, vertex_c) ∷ (vertex_a, vertex_b) ∷ []

abbrev empty_state : ClpaState ℕ
empty_state = record {
  net_graph = record { vertex_set = []; edge_set = none };
  partition_map = [];
  edges_to_shard = [];
  vertexs_num_in_shard = [];
  weight_penalty = 0;
  min_edges_to_shard = pos 0;
  max_iterations = 0;
  cross_shard_edge_num = pos 0;
  shard_num = 0;
}

-- Two shards, with two vertices in each, and the counts of a run's start.
abbrev state : ClpaState ℕ
state = record empty_state {
  net_graph = graph_of edges;
  partition_map = (vertex_a, 0) ∷ (vertex_b, 0) ∷ (vertex_c, 1) ∷ (vertex_d, 1) ∷ [];
  edges_to_shard = pos 3 ∷ pos 3 ∷ [];
  vertexs_num_in_shard = pos 2 ∷ pos 2 ∷ [];
  min_edges_to_shard = pos 3;
  max_iterations = 2;
  cross_shard_edge_num = pos 2;
  shard_num = 2;
}

get_or_range :
    (n : ℕ) (v : Vertex) (m : GoMap Vertex ℕ)
    → 0 < n
    → All (λ e. e.1 < n) m
    → GoMap.get_or v 0 m < n
unfolding GoMap.get_or GoMap.lookup
get_or_range n v [] h _ = h
get_or_range n v ((w, s) ∷ m) h (hs, hm) = elim (Bool-cases (w == v)) [
  | inl e ↦ rw (e, GoMap.get_or, GoMap.lookup) hs
  | inr e ↦ rw (e, GoMap.get_or, GoMap.lookup) (get_or_range n v m h hm)
]

state_range : (v : Vertex) → shard_of state v < 2
state_range v =
    get_or_range 2 v state.partition_map (ground arith)
      (ground arith, (ground arith, (ground arith, (ground arith, tt))))

state_counts : compute_edges_to_shard state ≡ ok state
unfolding compute_edges_to_shard count_edges update Graph.add_edge GoMap.insert GoMap.lookup
    bytes_beq GoMap.get_or
state_counts = refl

state_size : length state.vertexs_num_in_shard ≡ 2
state_size = refl

-- The vertex "0000000a" has a neighbour in its own shard and two in the other one.
no_loop : HasNoLoop vertex_c edges
unfolding bytes_beq
no_loop = (refl, (refl, (refl, (refl, tt))))

c_elsewhere : 0 ≢ shard_of state vertex_c
unfolding GoMap.get_or GoMap.lookup bytes_beq
c_elsewhere = ground arith

state_IsCounted : IsCounted state
state_IsCounted = (state, state_counts, (refl, refl))

compute_edges_to_shard-counts_example :
    Yields
      (λ c.
        IsCount 2 (shard_of state) edges c.edges_to_shard c.cross_shard_edge_num
        × (c.net_graph ≡ state.net_graph)
        × (c.partition_map ≡ state.partition_map)
        × (c.vertexs_num_in_shard ≡ pos 2 ∷ pos 2 ∷ [])
        × (c.shard_num ≡ 2))
      (compute_edges_to_shard state)
compute_edges_to_shard-counts_example = compute_edges_to_shard-counts state edges refl state_range

change_shard_recompute-IsCounted_example :
    Yields IsCounted
      (change_shard_recompute vertex_c (shard_of state vertex_c) (moved vertex_c 0 state))
change_shard_recompute-IsCounted_example =
    change_shard_recompute-IsCounted state edges vertex_c 0 refl state_range (ground arith)
      c_elsewhere no_loop state_IsCounted

abbrev order : ℕ → List Vertex
order i = vertex_d ∷ vertex_c ∷ vertex_b ∷ vertex_a ∷ []

clpa_partition-reports_example :
    Yields
      (λ r.
        ((v : Vertex) → shard_of r.2 v < 2)
        × ((v : Vertex) → GoMap.get_or v (shard_of state v) r.0 ≡ shard_of r.2 v)
        × (r.1 ≡ pos (cut (shard_of r.2) edges)))
      (clpa_partition fixed order state)
clpa_partition-reports_example =
    clpa_partition-reports fixed order state edges refl state_range state_size

-- A visit moves the vertex "0000000a", which has most of its neighbours in the other shard.
abbrev visited : Outcome (Labelling ℕ)
visited = visit fixed vertex_c (record { state = state; res = []; threshold = [] })

abbrev outcome_of : Labelling ℕ → Outcome (GoMap Bytes ℕ × ℤ)
outcome_of l = ok (l.res, l.state.cross_shard_edge_num)

visit_moves_c : (visited >>= outcome_of) ≡ ok ((vertex_c, 0) ∷ [], pos 1)
unfolding visit Graph.add_edge GoMap.insert GoMap.lookup bytes_beq GoMap.get_or ◌+ℤ◌ ◌-ℤ◌
visit_moves_c = refl

negative_address_panics : init_shard 4 (codes "-0000001") ≡ panic
unfolding init_shard
negative_address_panics = refl
