-- ===== src/Partition/Graph.antt =====
-- partition/graph.go: an undirected graph as adjacency lists.
use utxo_block_emulator.Base.{List, [], ◌∷◌, ◌++◌, Bool, true, Option, none, some, Bytes, bytes_eq}
use utxo_block_emulator.Base.GoMap
use utxo_block_emulator.Base.GoMap.{GoMap}

-- A vertex is an account, a struct with the address alone.
abbrev pub Vertex : Type 0
Vertex = Bytes

abbrev pub EdgeSet : Type 0
EdgeSet = GoMap Vertex (List Vertex)

-- An edge set that was never made is `none`; of the vertices a nil map and an empty one are the same to
-- the code.
pub record Graph : Type 0 where
  pub vertex_set : GoMap Vertex Bool
  pub edge_set : Option EdgeSet

-- What a read of the map sees.
abbrev pub edges_of : Option EdgeSet → EdgeSet
edges_of none = []
edges_of (some m) = m

abbrev pub neighbors : Vertex → Graph → List Vertex
neighbors v g = GoMap.get_or v [] (edges_of g.edge_set)

unfoldable pub add_vertex : Vertex → Graph → Graph
add_vertex v g = record g { vertex_set = GoMap.insert v true g.vertex_set }

unfoldable pub add_missing : Vertex → Graph → Graph
unfolding add_vertex
add_missing v g = elim (GoMap.lookup v g.vertex_set) [ none ↦ add_vertex v g | some _ ↦ g ]

-- `g.EdgeSet[u] = append(g.EdgeSet[u], v)`
unfoldable pub append_edge : Vertex → Vertex → EdgeSet → EdgeSet
append_edge u v m = GoMap.insert u (GoMap.get_or u [] m ++ (v ∷ [])) m

unfoldable pub add_edge : Vertex → Vertex → Graph → Graph
unfolding add_missing append_edge
add_edge u v g =
    let g' = add_missing v (add_missing u g) in
    record g' { edge_set = some (append_edge v u (append_edge u v (edges_of g'.edge_set))) }

unfoldable pub copy_vertices : GoMap Vertex Bool → GoMap Vertex Bool → GoMap Vertex Bool
copy_vertices [] dst = dst
copy_vertices ((v, _) ∷ vs) dst = copy_vertices vs (GoMap.insert v true dst)

unfoldable pub copy_edges : GoMap Vertex Bool → EdgeSet → EdgeSet → EdgeSet
copy_edges [] src dst = dst
copy_edges ((v, _) ∷ vs) src dst = copy_edges vs src (GoMap.insert v (GoMap.get_or v [] src) dst)

unfoldable pub copy_graph : (dst src : Graph) → Graph
unfolding copy_vertices copy_edges
copy_graph dst src = record {
  vertex_set = copy_vertices src.vertex_set [];
  edge_set = elim src.edge_set [
    | none ↦ dst.edge_set
    | some m ↦ some (copy_edges src.vertex_set m [])
  ];
}
