-- ===== src/Partition/Labels.antt =====
-- partition/partition_CLPA.go: the initial partitions, the score of a shard for a vertex, and
-- `CLPA_Partition`.
use utxo_block_emulator.Base.{
  ℕ, zero, suc, ◌-◌, ◌%◌, List, [], ◌∷◌, Bool, Option, none, some, Bytes, bytes_eq, nat_eq, ◌==◌,
  if◌then◌else◌, ltb, leb, length, drop, replicate,
}
use utxo_block_emulator.Base.Int.{ℤ, pos, ltb_ℤ}
use utxo_block_emulator.Base.GoMap
use utxo_block_emulator.Base.GoMap.{GoMap}
use utxo_block_emulator.Base.Outcome.{Outcome, ok, panic, or_panic, ◌>>=◌}
use utxo_block_emulator.Utils.{parse_digits}
use utxo_block_emulator.Partition.Graph.{Vertex, neighbors}
use utxo_block_emulator.Partition.Counting.{at, update, inc, dec}
use utxo_block_emulator.Partition.Clpa.{
  ClpaState, shard_of, compute_edges_to_shard, change_shard_recompute,
}

-- What the algorithm does with a `float64`.
pub record Floats (W : Type 0) : Type 0 where
  pub of_int : ℤ → W
  pub of_nat : ℕ → W
  pub mul : W → W → W
  pub div : W → W → W
  pub sub : W → W → W
  pub lt : W → W → Bool
  pub lowest : W

-- The number of a text of hexadecimal digits. None is an error.
unfoldable pub hex_number : Bytes → Outcome ℕ
unfolding parse_digits
hex_number [] = panic
hex_number (d ∷ ds) = or_panic (parse_digits 0 (d ∷ ds))

-- `int(num) % cs.ShardNum` as an index, with `num` by `strconv.ParseInt(_, 16, 64)`, which reads a sign:
-- a negative number gives a negative index, which panics, unless it is a multiple.
unfoldable pub init_shard : (shard_num : ℕ) → Bytes → Outcome ℕ
unfolding hex_number
init_shard n [] = panic
init_shard n (c ∷ cs) =
    if n == 0
    then panic
    else if c == b'-'
    then (do num ← hex_number cs; if num % n == 0 then ok 0 else panic)
    else if c == b'+'
    then (do num ← hex_number cs; ok (num % n))
    else (do num ← hex_number (c ∷ cs); ok (num % n))

module _ {W : Type 0} where
  unfoldable pub init_clpa_state :
      (penalty : W) → (iterations shards : ℕ) → ClpaState W → ClpaState W
  init_clpa_state penalty iterations shards cs = record cs {
    weight_penalty = penalty;
    max_iterations = iterations;
    shard_num = shards;
    vertexs_num_in_shard = replicate shards (pos 0);
    partition_map = [];
  }

  -- `cs.PartitionMap[v] = s; cs.VertexsNumInShard[s] += 1`
  unfoldable pub place : Vertex → ℕ → ClpaState W → Outcome (ClpaState W)
  unfolding update
  place v s cs = do
    nums ← update s inc cs.vertexs_num_in_shard
    ok (record cs {
      partition_map = GoMap.insert v s cs.partition_map;
      vertexs_num_in_shard = nums;
    })

  abbrev pub unplaced : ClpaState W → ClpaState W
  unplaced cs = record cs {
    vertexs_num_in_shard = replicate cs.shard_num (pos 0);
    partition_map = [];
  }

  -- An address of fewer than eight bytes panics.
  unfoldable pub place_by_address : GoMap Vertex Bool → ClpaState W → Outcome (ClpaState W)
  unfolding init_shard place
  place_by_address [] cs = ok cs
  place_by_address ((v, _) ∷ vs) cs = do
    s ← if ltb (length v) 8 then panic else init_shard cs.shard_num (drop (length v - 8) v)
    cs' ← place v s cs
    place_by_address vs cs'

  unfoldable pub init_partition : ClpaState W → Outcome (ClpaState W)
  unfolding place_by_address compute_edges_to_shard
  init_partition cs = do
    cs' ← place_by_address cs.net_graph.vertex_set (unplaced cs)
    compute_edges_to_shard cs'

  unfoldable pub place_in_turn : (cnt : ℕ) → GoMap Vertex Bool → ClpaState W → Outcome (ClpaState W)
  unfolding place
  place_in_turn cnt [] cs = ok cs
  place_in_turn cnt ((v, _) ∷ vs) cs = do
    s ← if cs.shard_num == 0 then panic else ok (cnt % cs.shard_num)
    cs' ← place v s cs
    place_in_turn (suc cnt) vs cs'

  -- `none` is the error: more shards than vertices.
  unfoldable pub stable_init_partition : ClpaState W → Outcome (Option (ClpaState W))
  unfolding place_in_turn compute_edges_to_shard
  stable_init_partition cs =
      if ltb (length cs.net_graph.vertex_set) cs.shard_num then ok none else (do
        cs₁ ← place_in_turn 0 cs.net_graph.vertex_set (unplaced cs)
        cs₂ ← compute_edges_to_shard cs₁
        ok (some cs₂))

unfoldable pub edges_to : (Vertex → ℕ) → ℕ → List Vertex → ℕ
edges_to p s [] = 0
edges_to p s (u ∷ us) = let rest = edges_to p s us in if p u == s then suc rest else rest

-- The scores of the shards of a vertex's neighbours, and the best of them so far.
pub record Best (W : Type 0) : Type 0 where
  pub scores : GoMap ℕ W
  pub max_score : W
  pub max_shard : ℕ

-- `res`, `updateTreshold` and the state.
pub record Labelling (W : Type 0) : Type 0 where
  pub state : ClpaState W
  pub res : GoMap Bytes ℕ
  pub threshold : GoMap Bytes ℕ

module _ {W : Type 0} (F : Floats W) where
  unfoldable pub get_shard_score : Vertex → ℕ → ClpaState W → Outcome W
  unfolding edges_to at
  get_shard_score v s cs = do
    e ← at s cs.edges_to_shard
    ok (
        F.mul
          (F.div (F.of_nat (edges_to (shard_of cs) s (neighbors v cs.net_graph)))
            (F.of_nat (length (neighbors v cs.net_graph))))
          (F.sub (F.of_nat 1)
            (F.div (F.mul cs.weight_penalty (F.of_int e)) (F.of_int cs.min_edges_to_shard))))

  -- A shard that has no score yet gets one.
  unfoldable pub score_neighbor : Vertex → ClpaState W → ℕ → Best W → Outcome (Best W)
  unfolding get_shard_score
  score_neighbor v cs s b = elim (GoMap.lookup s b.scores) [
    | some _ ↦ ok b
    | none ↦ (do
      score ← get_shard_score v s cs
      ok (
          if F.lt b.max_score score
          then record b { scores = GoMap.insert s score b.scores; max_score = score; max_shard = s }
          else record b { scores = GoMap.insert s score b.scores }))
  ]

  unfoldable pub score_neighbors : Vertex → ClpaState W → List Vertex → Best W → Outcome (Best W)
  unfolding score_neighbor
  score_neighbors v cs [] b = ok b
  score_neighbors v cs (u ∷ us) b = do
    b' ← score_neighbor v cs (shard_of cs u) b
    score_neighbors v cs us b'

  unfoldable pub best_shard : Vertex → ClpaState W → Outcome ℕ
  unfolding score_neighbors
  best_shard v cs = do
    b ←
        score_neighbors v cs (neighbors v cs.net_graph)
          (record { scores = []; max_score = F.lowest; max_shard = shard_of cs v })
    ok b.max_shard

  unfoldable pub move_vertex : Vertex → (now best : ℕ) → ClpaState W → Outcome (ClpaState W)
  unfolding update change_shard_recompute
  move_vertex v now best cs = do
    nums₁ ← update now dec cs.vertexs_num_in_shard
    nums₂ ← update best inc nums₁
    change_shard_recompute v now (record cs {
      partition_map = GoMap.insert v best cs.partition_map;
      vertexs_num_in_shard = nums₂;
    })

  abbrev pub record_move : Vertex → ℕ → ClpaState W → Labelling W → Labelling W
  record_move v best cs l = record {
    state = cs;
    res = GoMap.insert v best l.res;
    threshold = GoMap.insert v (suc (GoMap.get_or v 0 l.threshold)) l.threshold;
  }

  -- A shard keeps its last vertex.
  unfoldable pub move_to : Vertex → (best : ℕ) → Labelling W → Outcome (Labelling W)
  unfolding at move_vertex
  move_to v best l = do
    num ← at (shard_of l.state v) l.state.vertexs_num_in_shard
    (if ltb_ℤ (pos 1) num
        then (do cs ← move_vertex v (shard_of l.state v) best l.state; ok (record_move v best cs l))
        else ok l)

  unfoldable pub relabel : Vertex → (best : ℕ) → Labelling W → Outcome (Labelling W)
  unfolding move_to
  relabel v best l = if shard_of l.state v == best then ok l else move_to v best l

  -- One vertex in one iteration.
  unfoldable pub visit : Vertex → Labelling W → Outcome (Labelling W)
  unfolding best_shard relabel
  visit v l =
      if leb 50 (GoMap.get_or v 0 l.threshold)
      then ok l
      else (do best ← best_shard v l.state; relabel v best l)

  unfoldable pub visit_all : List Vertex → Labelling W → Outcome (Labelling W)
  unfolding visit
  visit_all [] l = ok l
  visit_all (v ∷ vs) l = do l' ← visit v l; visit_all vs l'

  -- `order i` is the order in which the i-th iteration visits the vertices.
  unfoldable pub iterate :
      (order : ℕ → List Vertex) (rounds i : ℕ) → Labelling W → Outcome (Labelling W)
  unfolding visit_all
  iterate order zero i l = ok l
  iterate order (suc rounds) i l = do l' ← visit_all (order i) l; iterate order rounds (suc i) l'

  unfoldable pub clpa_partition :
      (order : ℕ → List Vertex) → ClpaState W → Outcome (GoMap Bytes ℕ × ℤ × ClpaState W)
  unfolding iterate compute_edges_to_shard
  clpa_partition order cs = do
    cs₁ ← compute_edges_to_shard cs
    l ← iterate order cs.max_iterations 0 (record { state = cs₁; res = []; threshold = [] })
    cs₂ ← compute_edges_to_shard l.state
    ok (l.res, cs₂.cross_shard_edge_num, cs₂)
