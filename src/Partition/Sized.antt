-- ===== src/Partition/Sized.antt =====
-- partition/partition_CLPA.go, `CLPA_Partition`: no index is out of range while every vertex lies in a shard.
use utxo_block_emulator.Base.{
  ℕ, ◌<◌, List, [], ◌∷◌, Bool, true, false, bytes_eq, nat_eq, ◌==◌, if◌then◌else◌, length, get_or,
  set, ◌≡◌, ◌≢◌, refl, sym, ap, ◌∙◌, subst, arith, get_elem?-get_or, length-set, eq_iff, Bool-cases,
  Option-cases, inl, inr,
}
use utxo_block_emulator.Base.Int.{ℤ, pos}
use utxo_block_emulator.Base.GoMap
use utxo_block_emulator.Base.GoMap.{GoMap, lookup-insert}
use utxo_block_emulator.Base.Outcome.{ok, Yields, Yields-bind, Yields-after}
use utxo_block_emulator.Partition.Graph.{Vertex, neighbors}
use utxo_block_emulator.Partition.Counting.{at, update, inc, dec, recount}
use utxo_block_emulator.Partition.Clpa.{ClpaState, shard_of, change_shard_recompute}
use utxo_block_emulator.Partition.Labels.{
  Floats, Best, get_shard_score, score_neighbor, score_neighbors, best_shard, move_vertex,
}
use utxo_block_emulator.Partition.Directed.{update_ok}
use utxo_block_emulator.Partition.Recount.{recount-Shifts}

pub at_ok :
    {A : Type 0} (k : ℕ) (xs : List A) (d : A) → k < length xs → at k xs ≡ ok (get_or xs k d)
unfolding at
at_ok k xs d h = rw (get_elem?-get_or xs k d h) refl

module _ {W : Type 0} (F : Floats W) (n : ℕ) where
  -- The counts have a place for each shard, and every vertex lies in a shard.
  pub record IsSized (cs : ClpaState W) : Type 0 where
    pub shards : cs.shard_num ≡ n
    pub edges : length cs.edges_to_shard ≡ n
    pub nums : length cs.vertexs_num_in_shard ≡ n
    pub range : (v : Vertex) → shard_of cs v < n

  module _ (v : Vertex) (cs : ClpaState W) (sized : IsSized cs) where
    get_shard_score-Yields : (s : ℕ) → s < n → Yields (λ _. Unit {0}) (get_shard_score F v s cs)
    unfolding get_shard_score
    get_shard_score-Yields s h =
        Yields-after (at s cs.edges_to_shard) _
          (at_ok s cs.edges_to_shard (pos 0) (subst (λ m. s < m) (sym sized.edges) h)) (_, refl, tt)

    score_neighbor-Yields :
        (s : ℕ) (b : Best W)
        → s < n
        → b.max_shard < n
        → Yields (λ b'. b'.max_shard < n) (score_neighbor F v cs s b)
    unfolding score_neighbor
    score_neighbor-Yields s b hs hb = elim (Option-cases (GoMap.lookup s b.scores)) [
      | inr (x, e) ↦ (b, rw (e, score_neighbor) refl, hb)
      | inl e ↦
          rw (e, score_neighbor)
            (Yields-bind (get_shard_score F v s cs) _ (get_shard_score-Yields s hs)
              (λ score _. (_, refl, max_lem (F.lt b.max_score score) score)))
    ]
      where
        max_lem :
            (t : Bool) (score : W)
            → (if t
                then record b {
                  scores = GoMap.insert s score b.scores;
                  max_score = score;
                  max_shard = s;
                }
                else record b { scores = GoMap.insert s score b.scores }).max_shard
              < n
        max_lem true score = hs
        max_lem false score = hb

    score_neighbors-Yields :
        (us : List Vertex) (b : Best W)
        → b.max_shard < n
        → Yields (λ b'. b'.max_shard < n) (score_neighbors F v cs us b)
    unfolding score_neighbors
    score_neighbors-Yields [] b h = (b, refl, h)
    score_neighbors-Yields (u ∷ us) b h =
        Yields-bind (score_neighbor F v cs (shard_of cs u) b) _
          (score_neighbor-Yields (shard_of cs u) b (sized.range u) h)
          (λ b' h'. score_neighbors-Yields us b' h')

    pub best_shard-Yields : Yields (λ s. s < n) (best_shard F v cs)
    unfolding best_shard
    best_shard-Yields =
        Yields-bind (score_neighbors F v cs (neighbors v cs.net_graph) _) _
          (score_neighbors-Yields (neighbors v cs.net_graph) _ (sized.range v))
          (λ b h. (b.max_shard, refl, h))

  -- A move leaves the graph alone, and puts the vertex into its new shard.
  pub record Moves (v : Vertex) (best : ℕ) (cs r : ClpaState W) : Type 0 where
    pub graph : r.net_graph ≡ cs.net_graph
    pub placed : r.partition_map ≡ GoMap.insert v best cs.partition_map
    pub sized : IsSized r

  pub shard_of-placed :
      (v x : Vertex) (best : ℕ) (cs r : ClpaState W)
      → r.partition_map ≡ GoMap.insert v best cs.partition_map
      → shard_of r x ≡ (if v == x then best else shard_of cs x)
  unfolding GoMap.get_or
  shard_of-placed v x best cs r e =
      ap (λ m. GoMap.get_or x 0 m) e ∙ ground (arith, lookup-insert v x best cs.partition_map)

  placed-range :
      (v : Vertex) (best : ℕ) (cs r : ClpaState W)
      → r.partition_map ≡ GoMap.insert v best cs.partition_map
      → best < n
      → IsSized cs
      → (x : Vertex) → shard_of r x < n
  placed-range v best cs r e h sized x =
      subst (λ s. s < n) (sym (shard_of-placed v x best cs r e))
        (elim (Bool-cases (v == x)) [ inl t ↦ rw t h | inr t ↦ rw t (sized.range x) ])

  pub move_vertex-Moves :
      (v : Vertex) (now best : ℕ) (cs : ClpaState W)
      → now < n
      → best < n
      → best ≢ now
      → IsSized cs
      → Yields (Moves v best cs) (move_vertex F v now best cs)
  unfolding move_vertex change_shard_recompute
  move_vertex-Moves v now best cs hn hb other sized =
      let nums : List ℤ =
        set cs.vertexs_num_in_shard now (dec (get_or cs.vertexs_num_in_shard now (pos 0))) in
      let size : length nums ≡ n = length-set cs.vertexs_num_in_shard now _ ∙ sized.nums in
      let places : ClpaState W = record cs {
        partition_map = GoMap.insert v best cs.partition_map;
      } in
      let at_v : shard_of places v ≡ best =
        shard_of-placed v v best cs places refl ∙ rw ((eq_iff v v).1 refl) refl in
      Yields-after (update now dec cs.vertexs_num_in_shard) _
        (update_ok now dec cs.vertexs_num_in_shard (pos 0)
          (subst (λ m. now < m) (sym sized.nums) hn))
        (Yields-after (update best inc nums) _
          (update_ok best inc nums (pos 0) (subst (λ m. best < m) (sym size) hb))
          (Yields-bind
            (recount (shard_of places) (shard_of places v) now (neighbors v cs.net_graph)
              (cs.edges_to_shard, cs.cross_shard_edge_num))
            _
            (recount-Shifts n (shard_of places v) now (subst (λ s. s ≢ now) (sym at_v) other)
              (subst (λ s. s < n) (sym at_v) hb) hn (shard_of places) (neighbors v cs.net_graph)
              (cs.edges_to_shard, cs.cross_shard_edge_num) sized.edges)
            (λ c h. (
              _,
              refl,
              record {
                graph = refl;
                placed = refl;
                sized = record {
                  shards = sized.shards;
                  edges = h.size;
                  nums = length-set nums best _ ∙ size;
                  range = placed-range v best cs places refl hb sized;
                };
              },
            ))))
