-- ===== src/Partition/Moved.antt =====
-- partition/partition_CLPA.go: after a vertex has changed its shard, `changeShardRecompute` leaves the counts
-- that `ComputeEdges2Shard` would make anew.
use utxo_block_emulator.Base.{
  ℕ, ◌+◌, ◌<◌, List, [], ◌∷◌, ◌++◌, ◌&&◌, true, false, bytes_eq, nat_eq, ◌==◌, if◌then◌else◌, ◌||◌,
  ◌≡◌, ◌≢◌, refl, ap, ◌∙◌, arith, eq_iff, Bool-cases, inl, inr, All,
}
use utxo_block_emulator.Base.Int.{ℤ, int_laws, parts_of_eq}
use utxo_block_emulator.Base.GoMap
use utxo_block_emulator.Base.GoMap.{GoMap, lookup-insert}
use utxo_block_emulator.Base.Outcome.{Yields}
use utxo_block_emulator.Partition.Graph.{Vertex, EdgeSet, append_edge}
use utxo_block_emulator.Partition.Counting.{recount}
use utxo_block_emulator.Partition.Weight.{weight, cut, IsCount}
use utxo_block_emulator.Partition.Directed.{along, edge_set_of, along-append}
use utxo_block_emulator.Partition.Recount.{gain, loss, hit, recount-Shifts}

-- The edges at a vertex, by their other ends.
abbrev at_vertex : Vertex → (Vertex → ℕ) → List (Vertex × Vertex) → ℕ
at_vertex v f [] = 0
at_vertex v f ((a, b) ∷ es) =
    (if a == v then f b else 0) + (if b == v then f a else 0) + at_vertex v f es

get_or-append_edge :
    (v u w : Vertex) (m : EdgeSet)
    → GoMap.get_or v [] (append_edge u w m)
      ≡ (if u == v then GoMap.get_or v [] m ++ (w ∷ []) else GoMap.get_or v [] m)
unfolding append_edge GoMap.get_or
get_or-append_edge v u w m =
    ground (arith, lookup-insert u v (GoMap.get_or u [] m ++ (w ∷ [])) m, eq_iff u v)

along-append_edge :
    (f : Vertex → ℕ) (v u w : Vertex) (m : EdgeSet)
    → along f (GoMap.get_or v [] (append_edge u w m))
      ≡ along f (GoMap.get_or v [] m) + (if u == v then f w else 0)
along-append_edge f v u w m =
    ground (arith, get_or-append_edge v u w m, along-append f (GoMap.get_or v [] m) w)

along-edge_set_of :
    (f : Vertex → ℕ) (v : Vertex) (es : List (Vertex × Vertex))
    → along f (GoMap.get_or v [] (edge_set_of es)) ≡ at_vertex v f es
unfolding GoMap.get_or GoMap.lookup
along-edge_set_of f v [] = refl
along-edge_set_of f v ((a, b) ∷ es) = omega (
  arith,
  along-append_edge f v b a (append_edge a b (edge_set_of es)),
  along-append_edge f v a b (edge_set_of es),
  along-edge_set_of f v es,
)

-- No edge from the vertex to itself.
abbrev pub HasNoLoop : Vertex → List (Vertex × Vertex) → Type 0
HasNoLoop v es = All (λ e. (e.0 == v && e.1 == v) ≡ false) es

module _ (v : Vertex) (p q : Vertex → ℕ) (new old : ℕ) (other : new ≢ old) (was : p v ≡ old)
    (moved : (x : Vertex) → q x ≡ (if v == x then new else p x)) where
  q_at : (x : Vertex) → (x == v) ≡ true → q x ≡ new
  q_at x e = ground (arith, moved x, eq_iff x v, eq_iff v x)

  p_at : (x : Vertex) → (x == v) ≡ true → p x ≡ old
  p_at x e = ap p ((eq_iff x v).0 e) ∙ was

  q_off : (x : Vertex) → (x == v) ≡ false → q x ≡ p x
  q_off x e = ground (arith, moved x, eq_iff x v, eq_iff v x)

  edge_moves :
      (a b : Vertex) (k : ℕ)
      → (a == v && b == v) ≡ false
      → (if q a == k || q b == k then 1 else 0)
          + ((if a == v then loss new old (q b) k else 0)
              + (if b == v then loss new old (q a) k else 0))
        ≡ (if p a == k || p b == k then 1 else 0)
          + ((if a == v then gain new old (q b) k else 0)
              + (if b == v then gain new old (q a) k else 0))
  edge_moves a b k h = elim (Bool-cases (a == v)) [
    | inl e ↦
        let g : (b == v) ≡ false = ground (arith, h, e) in
        rw (e, g, q_at a e, p_at a e, q_off b g) (ground arith)
    | inr e ↦ elim (Bool-cases (b == v)) [
      | inl g ↦ rw (e, g, q_at b g, p_at b g, q_off a e) (ground arith)
      | inr g ↦ rw (e, g, q_off a e, q_off b g) (omega arith)
    ]
  ]

  weight_moves :
      (k : ℕ) (es : List (Vertex × Vertex))
      → HasNoLoop v es
      → weight q k es + at_vertex v (λ u. loss new old (q u) k) es
        ≡ weight p k es + at_vertex v (λ u. gain new old (q u) k) es
  weight_moves k [] h = refl
  weight_moves k ((a, b) ∷ es) h = omega (arith, edge_moves a b k h.0, weight_moves k es h.1)

  edge_crosses :
      (a b : Vertex)
      → (a == v && b == v) ≡ false
      → (if q a == q b then 0 else 1)
          + ((if a == v then hit new (q b) else 0) + (if b == v then hit new (q a) else 0))
        ≡ (if p a == p b then 0 else 1)
          + ((if a == v then hit old (q b) else 0) + (if b == v then hit old (q a) else 0))
  edge_crosses a b h = elim (Bool-cases (a == v)) [
    | inl e ↦
        let g : (b == v) ≡ false = ground (arith, h, e) in
        rw (e, g, q_at a e, p_at a e, q_off b g) (ground arith)
    | inr e ↦ elim (Bool-cases (b == v)) [
      | inl g ↦ rw (e, g, q_at b g, p_at b g, q_off a e) (ground arith)
      | inr g ↦ rw (e, g, q_off a e, q_off b g) (omega arith)
    ]
  ]

  cut_moves :
      (es : List (Vertex × Vertex))
      → HasNoLoop v es
      → cut q es + at_vertex v (λ u. hit new (q u)) es
        ≡ cut p es + at_vertex v (λ u. hit old (q u)) es
  cut_moves [] h = refl
  cut_moves ((a, b) ∷ es) h = omega (arith, edge_crosses a b h.0, cut_moves es h.1)

  -- The recount takes the counts of `p` to those of `q`.
  pub recount-IsCount :
      (n : ℕ) (es : List (Vertex × Vertex)) (edges : List ℤ) (cross : ℤ)
      → new < n
      → old < n
      → HasNoLoop v es
      → IsCount n p es edges cross
      → Yields
          (λ r. IsCount n q es r.0 r.1)
          (recount q new old (GoMap.get_or v [] (edge_set_of es)) (edges, cross))
  recount-IsCount n es edges cross new_range old_range loops c =
      let us = GoMap.get_or v [] (edge_set_of es) in
      let (r, e, s) =
        recount-Shifts n new old other new_range old_range q us (edges, cross) c.size in
      (
        r,
        e,
        record {
          size = s.size;
          weights = λ k. omega (
            int_laws,
            parts_of_eq (s.edges k),
            parts_of_eq (c.weights k),
            weight_moves k es loops,
            along-edge_set_of (λ u. loss new old (q u) k) v es,
            along-edge_set_of (λ u. gain new old (q u) k) v es,
          );
          crossed = omega (
            int_laws,
            parts_of_eq s.cross,
            parts_of_eq c.crossed,
            cut_moves es loops,
            along-edge_set_of (λ u. hit new (q u)) v es,
            along-edge_set_of (λ u. hit old (q u)) v es,
          );
        },
      )
