-- ===== src/Partition/Run.antt =====
-- partition/partition_CLPA.go, `CLPA_Partition`: a run comes to an end, and the map that it returns tells
-- what it did.
use utxo_block_emulator.Base.{
  ℕ, zero, suc, ◌<◌, List, [], ◌∷◌, false, Bytes, bytes_eq, nat_eq, ◌==◌, if◌then◌else◌, leb,
  length, get_or, ◌≡◌, ◌≢◌, refl, sym, ap, ◌∙◌, subst, arith,
}
use utxo_block_emulator.Base.Int.{ℤ, pos, ltb_ℤ}
use utxo_block_emulator.Base.GoMap
use utxo_block_emulator.Base.GoMap.{GoMap, lookup-insert}
use utxo_block_emulator.Base.Outcome.{ok, Yields, Yields-bind, Yields-after, Yields-if, ◌>>=◌}
use utxo_block_emulator.Partition.Graph.{Vertex, edges_of}
use utxo_block_emulator.Partition.Counting.{at}
use utxo_block_emulator.Partition.Clpa.{ClpaState, shard_of, compute_edges_to_shard}
use utxo_block_emulator.Partition.Labels.{
  Floats, Labelling, best_shard, move_vertex, record_move, move_to, relabel, visit, visit_all,
  iterate, clpa_partition,
}
use utxo_block_emulator.Partition.Weight.{cut}
use utxo_block_emulator.Partition.Fresh.{graph_of, compute_edges_to_shard-counts}
use utxo_block_emulator.Partition.Sized.{
  IsSized, Moves, best_shard-Yields, move_vertex-Moves, shard_of-placed, at_ok,
}

module _ {W : Type 0} (F : Floats W) (n : ℕ) (start : ClpaState W) where
  -- The map tells where each vertex is, for one that it does not name: where it was.
  record Reports (l : Labelling W) : Type 0 where
    graph : l.state.net_graph ≡ start.net_graph
    sized : IsSized F n l.state
    told : (x : Vertex) → GoMap.get_or x (shard_of start x) l.res ≡ shard_of l.state x

  get_or-insert :
      (v x : Vertex) (s d : ℕ) (m : GoMap Vertex ℕ)
      → GoMap.get_or x d (GoMap.insert v s m) ≡ (if v == x then s else GoMap.get_or x d m)
  unfolding GoMap.get_or
  get_or-insert v x s d m = ground (arith, lookup-insert v x s m)

  record_move-Reports :
      (v : Vertex) (best : ℕ) (cs : ClpaState W) (l : Labelling W)
      → Reports l
      → Moves F n v best l.state cs
      → Reports (record_move F v best cs l)
  record_move-Reports v best cs l h m = record {
    graph = m.graph ∙ h.graph;
    sized = m.sized;
    told = λ x. ground (
      arith,
      get_or-insert v x best (shard_of start x) l.res,
      shard_of-placed F n v x best l.state cs m.placed,
      h.told x,
    );
  }

  move_to-Reports :
      (v : Vertex) (best : ℕ) (l : Labelling W)
      → best < n
      → best ≢ shard_of l.state v
      → Reports l
      → Yields Reports (move_to F v best l)
  unfolding move_to
  move_to-Reports v best l hb other h =
      let now = shard_of l.state v in
      let num = get_or l.state.vertexs_num_in_shard now (pos 0) in
      Yields-after (at now l.state.vertexs_num_in_shard) _
        (at_ok now l.state.vertexs_num_in_shard (pos 0)
          (subst (λ m. now < m) (sym h.sized.nums) (h.sized.range v)))
        (Yields-if (ltb_ℤ (pos 1) num)
          (move_vertex F v now best l.state >>= λ cs. ok (record_move F v best cs l)) (ok l)
          (λ _.
            Yields-bind (move_vertex F v now best l.state) _
              (move_vertex-Moves F n v now best l.state (h.sized.range v) hb other h.sized)
              (λ cs m. (record_move F v best cs l, refl, record_move-Reports v best cs l h m)))
          (λ _. (l, refl, h)))

  relabel-Reports :
      (v : Vertex) (best : ℕ) (l : Labelling W)
      → best < n
      → Reports l
      → Yields Reports (relabel F v best l)
  unfolding relabel
  relabel-Reports v best l hb h =
      Yields-if (shard_of l.state v == best) (ok l) (move_to F v best l) (λ _. (l, refl, h))
        (λ other. move_to-Reports v best l hb (differ best (shard_of l.state v) other) h)
    where
      differ : (a b : ℕ) → (b == a) ≡ false → a ≢ b
      differ a b e = ground arith

  visit-Reports : (v : Vertex) (l : Labelling W) → Reports l → Yields Reports (visit F v l)
  unfolding visit
  visit-Reports v l h =
      Yields-if (leb 50 (GoMap.get_or v 0 l.threshold)) (ok l)
        (best_shard F v l.state >>= λ best. relabel F v best l) (λ _. (l, refl, h))
        (λ _.
          Yields-bind (best_shard F v l.state) _ (best_shard-Yields F n v l.state h.sized)
            (λ best hb. relabel-Reports v best l hb h))

  visit_all-Reports :
      (vs : List Vertex) (l : Labelling W) → Reports l → Yields Reports (visit_all F vs l)
  unfolding visit_all
  visit_all-Reports [] l h = (l, refl, h)
  visit_all-Reports (v ∷ vs) l h =
      Yields-bind (visit F v l) _ (visit-Reports v l h) (λ l' h'. visit_all-Reports vs l' h')

  iterate-Reports :
      (order : ℕ → List Vertex) (rounds i : ℕ) (l : Labelling W)
      → Reports l
      → Yields Reports (iterate F order rounds i l)
  unfolding iterate
  iterate-Reports order zero i l h = (l, refl, h)
  iterate-Reports order (suc rounds) i l h =
      Yields-bind (visit_all F (order i) l) _ (visit_all-Reports (order i) l h)
        (λ l' h'. iterate-Reports order rounds (suc i) l' h')

  -- The run starts with an empty map and ends with a count, of which `crossed` is the number.
  ends-Reports :
      (order : ℕ → List Vertex) (es : List (Vertex × Vertex)) (l : Labelling W)
      → edges_of start.net_graph.edge_set ≡ edges_of (graph_of es).edge_set
      → Reports l
      → Yields
          (λ (r : GoMap Bytes ℕ × ℤ × ClpaState W).
            ((v : Vertex) → shard_of r.2 v < n)
            × ((v : Vertex) → GoMap.get_or v (shard_of start v) r.0 ≡ shard_of r.2 v)
            × (r.1 ≡ pos (cut (shard_of r.2) es)))
          (compute_edges_to_shard l.state >>= λ c. ok (l.res, c.cross_shard_edge_num, c))
  ends-Reports order es l graph h =
      Yields-bind (compute_edges_to_shard l.state) _
        (compute_edges_to_shard-counts l.state es (ap (λ g. edges_of g.edge_set) h.graph ∙ graph)
          (λ v. subst (λ m. shard_of l.state v < m) (sym h.sized.shards) (h.sized.range v)))
        (λ c (k, g, p, s, m).
          let same : (v : Vertex) → shard_of l.state v ≡ shard_of c v =
            λ v. ap (λ x. GoMap.get_or v 0 x) (sym p) in
          (
            _,
            refl,
            (
              λ v. subst (λ x. x < n) (same v) (h.sized.range v),
              λ v. h.told v ∙ same v,
              subst (λ x. c.cross_shard_edge_num ≡ pos (cut (λ v. GoMap.get_or v 0 x) es)) (sym p)
                  k.crossed,
            ),
          ))

get_or-empty : (v : Vertex) (d : ℕ) → GoMap.get_or {V = ℕ} v d [] ≡ d
unfolding GoMap.get_or
get_or-empty v d = refl

module _ {W : Type 0} (F : Floats W) where
  counted-IsSized :
      (cs c : ClpaState W)
      → ((v : Vertex) → shard_of cs v < cs.shard_num)
      → length cs.vertexs_num_in_shard ≡ cs.shard_num
      → length c.edges_to_shard ≡ cs.shard_num
      → c.partition_map ≡ cs.partition_map
      → c.vertexs_num_in_shard ≡ cs.vertexs_num_in_shard
      → c.shard_num ≡ cs.shard_num
      → IsSized F cs.shard_num c
  counted-IsSized cs c range nums size p s m = record {
    shards = m;
    edges = size;
    nums = ap length s ∙ nums;
    range = λ v. subst (λ x. GoMap.get_or v 0 x < cs.shard_num) (sym p) (range v);
  }

  -- On a graph of added edges, with every vertex in one of the shards and a count of vertices for each
  -- shard, `CLPA_Partition` comes to an end, whatever the scores are and in whatever order it visits the
  -- vertices. Every vertex is in one of the shards then; the map that it returns gives the shard of each
  -- vertex that it names, and the others are where they were; and the number that it returns is that of
  -- the edges between two shards of the new partition.
  pub clpa_partition-reports :
      (order : ℕ → List Vertex) (cs : ClpaState W) (es : List (Vertex × Vertex))
      → edges_of cs.net_graph.edge_set ≡ edges_of (graph_of es).edge_set
      → ((v : Vertex) → shard_of cs v < cs.shard_num)
      → length cs.vertexs_num_in_shard ≡ cs.shard_num
      → Yields
          (λ r.
            ((v : Vertex) → shard_of r.2 v < cs.shard_num)
            × ((v : Vertex) → GoMap.get_or v (shard_of cs v) r.0 ≡ shard_of r.2 v)
            × (r.1 ≡ pos (cut (shard_of r.2) es)))
          (clpa_partition F order cs)
  unfolding clpa_partition
  clpa_partition-reports order cs es graph range nums =
      Yields-bind (compute_edges_to_shard cs) _ (compute_edges_to_shard-counts cs es graph range)
        (λ cs₁ (h, g, p, s, m).
          Yields-bind
            (iterate F order cs.max_iterations 0 (record { state = cs₁; res = []; threshold = [] }))
            _
            (iterate-Reports F cs.shard_num cs order cs.max_iterations 0 _ (record {
              graph = g;
              sized = counted-IsSized cs cs₁ range nums h.size p s m;
              told = λ v.
                  get_or-empty v (shard_of cs v)
                  ∙ ap (λ (x : GoMap Vertex ℕ). GoMap.get_or v 0 x) (sym p);
            }))
            (λ l k. ends-Reports F cs.shard_num cs order es l graph k))
