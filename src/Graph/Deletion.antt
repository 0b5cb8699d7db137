-- ===== src/Graph/Deletion.antt =====
-- deleteNode, neighborEdgeIds and sequences of writes of in-memory-graph-store.ts.
use tekbreed_oss.Prelude.{
  String, ◌≡◌, refl, ap, ◌∙◌, Bool, true, false, ◌||◌, ◌==◌, arith, eq_iff, if◌then◌else◌, Option,
  none, some, List, [], ◌∷◌, ◌++◌, Option-cases, Bool-cases, inl, inr, includes, includes-append,
  ltb, length,
}
use tekbreed_oss.Prelude.Result.{ok, throw}
use tekbreed_oss.JsMap
use tekbreed_oss.JsMap.{get-set, get-delete, has}
use tekbreed_oss.Graph.{
  StoredGraphEdge, GraphStore, GraphDirection, out, into, both, connected, remove_edge,
  remove_edges, delete_node, connected_edge_ids, get_node, get_edge, neighbor_edge_ids,
  neighbor_candidates, ids_at, unindex_edge,
}
use tekbreed_oss.Graph.Sets.{includes-set_of}
use tekbreed_oss.Graph.Index.{leaves, enters}
use tekbreed_oss.Graph.Keys.{edge_has}
use tekbreed_oss.Graph.Reflected.{
  IsReflected, remove_edge-IsReflected, remove_edge-none, remove_edge-some,
}

-- One of the edge's ends is the node.
abbrev pub touches : {Fields : Type 0} → String → StoredGraphEdge Fields → Bool
touches id e = (e.from == id) || (e.to == id)

pub some_member :
    (ids : List String) (i : String) → includes ids i ≡ true → ltb 0 (length ids) ≡ true
unfolding includes
some_member [] i h = cc
some_member (id ∷ ids) i h = ground arith

module _ {Node Fields : Type 0} where
  pub get-remove_edge :
      (s : GraphStore Node Fields) (id i : String)
      → JsMap.get (remove_edge s id).1.edges i ≡ (if id == i then none else JsMap.get s.edges i)
  get-remove_edge s id i = elim (Option-cases (JsMap.get s.edges id)) [
    | inl h ↦ rw (remove_edge-none s id h) (ground (arith, eq_iff id i))
    | inr (q, h) ↦ rw (remove_edge-some s id h) (get-delete s.edges id i)
  ]

  pub nodes-remove_edge :
      (s : GraphStore Node Fields) (id : String) → (remove_edge s id).1.nodes ≡ s.nodes
  unfolding unindex_edge
  nodes-remove_edge s id = elim (Option-cases (JsMap.get s.edges id)) [
    | inl h ↦ rw (remove_edge-none s id h) refl
    | inr (q, h) ↦ rw (remove_edge-some s id h) refl
  ]

  get-remove_edges :
      (s : GraphStore Node Fields) (ids : List String) (i : String)
      → JsMap.get (remove_edges s ids).edges i
        ≡ (if includes ids i then none else JsMap.get s.edges i)
  unfolding remove_edges includes
  get-remove_edges s [] i = refl
  get-remove_edges s (id ∷ ids) i =
      ground (arith, get-remove_edges (remove_edge s id).1 ids i, get-remove_edge s id i)

  pub nodes-remove_edges :
      (s : GraphStore Node Fields) (ids : List String) → (remove_edges s ids).nodes ≡ s.nodes
  unfolding remove_edges
  nodes-remove_edges s [] = refl
  nodes-remove_edges s (id ∷ ids) =
      nodes-remove_edges (remove_edge s id).1 ids ∙ nodes-remove_edge s id

  remove_edges-IsReflected :
      (s : GraphStore Node Fields) (ids : List String)
      → IsReflected s
      → IsReflected (remove_edges s ids)
  unfolding remove_edges
  remove_edges-IsReflected s [] r = r
  remove_edges-IsReflected s (id ∷ ids) r =
      remove_edges-IsReflected (remove_edge s id).1 ids (remove_edge-IsReflected s id r)

  pub delete_node-IsReflected :
      (s : GraphStore Node Fields) (id : String) (cascade_edges : Bool)
      → IsReflected s
      → IsReflected (delete_node s id cascade_edges).1
  unfolding delete_node
  delete_node-IsReflected s id true r = elim (Bool-cases (has s.nodes id)) [
    | inl h ↦ rw h (remove_edges-IsReflected _ (connected_edge_ids s id) r)
    | inr h ↦ rw h r
  ]
  delete_node-IsReflected s id false r = elim (Bool-cases (has s.nodes id)) [
    | inr h ↦ rw h r
    | inl h ↦ elim (Bool-cases (ltb 0 (length (connected_edge_ids s id)))) [
      | inl g ↦ rw (h, g) r
      | inr g ↦ rw (h, g) r
    ]
  ]

  -- The edges that `deleteNode` collects are those that touch the node.
  pub includes-connected_edge_ids :
      (s : GraphStore Node Fields) (id i : String)
      → IsReflected s
      → includes (connected_edge_ids s id) i ≡ edge_has (touches id) (JsMap.get s.edges i)
  unfolding connected_edge_ids includes
  includes-connected_edge_ids s id i r =
      includes-set_of [] (ids_at s.outgoing id ++ ids_at s.incoming id) i
      ∙ includes-append (ids_at s.outgoing id) (ids_at s.incoming id) i
      ∙ either (JsMap.get s.edges i) (r id i).0 (r id i).1
    where
      either :
          (o : Option (StoredGraphEdge Fields)) {a b : Bool}
          → a ≡ edge_has (leaves id) o
          → b ≡ edge_has (enters id) o
          → (a || b) ≡ edge_has (touches id) o
      either none h g = ground arith
      either (some e) h g = ground arith

  -- On a store whose indices reflect its edges, `deleteNode` of a present node with the cascade
  -- returns true, takes away this node and exactly the edges that touch it, keeps every other
  -- node and edge, and the indices still reflect the edges.
  pub delete_node_cascades :
      (s : GraphStore Node Fields) (id j i : String)
      → IsReflected s
      → has s.nodes id ≡ true
      → let (answer, s') = delete_node s id true in
        (answer ≡ ok true)
        × (get_node s' j ≡ (if id == j then none else get_node s j))
        × (get_edge s' i ≡ (if edge_has (touches id) (get_edge s i) then none else get_edge s i))
        × IsReflected s'
  unfolding delete_node get_node get_edge
  delete_node_cascades s id j i r h = rw h (
    refl,
    ap (λ nodes. JsMap.get nodes j) (nodes-remove_edges bare ids) ∙ get-delete s.nodes id j,
    get-remove_edges bare ids i
        ∙ ap (λ b. if b then none else JsMap.get s.edges i) (includes-connected_edge_ids s id i r),
    remove_edges-IsReflected bare ids r,
  )
    where
      ids : List String
      ids = connected_edge_ids s id

      bare : GraphStore Node Fields
      bare = record s { nodes = JsMap.delete s.nodes id }

  -- On a store whose indices reflect its edges, `deleteNode` without the cascade on a present
  -- node that some edge touches throws the conflict and changes nothing.
  pub delete_node_connected :
      (s : GraphStore Node Fields) (id i : String)
      → IsReflected s
      → has s.nodes id ≡ true
      → edge_has (touches id) (get_edge s i) ≡ true
      → delete_node s id false ≡ (throw (connected id), s)
  unfolding delete_node get_edge
  delete_node_connected s id i r h t =
      rw (h, some_member (connected_edge_ids s id) i (includes-connected_edge_ids s id i r ∙ t))
        refl

  -- On a store whose indices reflect its edges, neighborEdgeIds gives an edge id for a node and
  -- direction exactly if the store has the edge and neighborCandidates finds a neighbor along it.
  pub includes-neighbor_edge_ids :
      (s : GraphStore Node Fields) (node i : String) (d : GraphDirection)
      → IsReflected s
      → includes (neighbor_edge_ids s node d) i
        ≡ edge_has (λ e. ltb 0 (length (neighbor_candidates e node d))) (get_edge s i)
  unfolding neighbor_edge_ids neighbor_candidates get_edge includes
  includes-neighbor_edge_ids s node i out r = (r node i).0 ∙ leaving (JsMap.get s.edges i)
    where
      leaving :
          (o : Option (StoredGraphEdge Fields))
          → edge_has (leaves node) o
            ≡ edge_has (λ e. ltb 0 (length (neighbor_candidates e node out))) o
      leaving none = refl
      leaving (some e) = ground arith
  includes-neighbor_edge_ids s node i into r = (r node i).1 ∙ entering (JsMap.get s.edges i)
    where
      entering :
          (o : Option (StoredGraphEdge Fields))
          → edge_has (enters node) o
            ≡ edge_has (λ e. ltb 0 (length (neighbor_candidates e node into))) o
      entering none = refl
      entering (some e) = ground arith
  includes-neighbor_edge_ids s node i both r =
      includes-set_of [] (ids_at s.outgoing node ++ ids_at s.incoming node) i
      ∙ includes-append (ids_at s.outgoing node) (ids_at s.incoming node) i
      ∙ either (JsMap.get s.edges i) (r node i).0 (r node i).1
    where
      either :
          (o : Option (StoredGraphEdge Fields)) {a b : Bool}
          → a ≡ edge_has (leaves node) o
          → b ≡ edge_has (enters node) o
          → (a || b) ≡ edge_has (λ e. ltb 0 (length (neighbor_candidates e node both))) o
      either none h g = ground arith
      either (some e) h g = ground arith
