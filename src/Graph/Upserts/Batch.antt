-- ===== src/Graph/Upserts/Batch.antt =====
-- What upsertEdges does to the store, and deleteNode.
use tekbreed_oss.Prelude.{
  ℕ, String, ◌≡◌, refl, ap, ◌∙◌, ◌⊎◌, inl, inr, Bool, true, false, Option, none, List, [], ◌∷◌,
  arith, ◌==◌, eq_iff, if◌then◌else◌, All, Bool-cases, Option-cases, ltb, length,
}
use tekbreed_oss.Prelude.Floats.{Floats}
use tekbreed_oss.Prelude.Result.{Result, ok, throw, Result-cases}
use tekbreed_oss.JsMap
use tekbreed_oss.JsMap.{JsMap, has, Distinct, get-set, get-delete}
use tekbreed_oss.JsMap.Bulk.{set_all, last_of, or_else, get-set_all}
use tekbreed_oss.Graph.{
  StoredGraphEdge, GraphStore, GraphError, set_edge, delete_node, connected_edge_ids, get_node,
  get_edge, index_edge, unindex_edge,
}
use tekbreed_oss.Graph.Keys.{edge_has}
use tekbreed_oss.Graph.Reflected.{
  IsReflected, edges-set_edge, set_edge-IsReflected, set_edge-none, set_edge-some,
}
use tekbreed_oss.Graph.Deletion.{
  touches, some_member, includes-connected_edge_ids, delete_node_cascades,
}
use tekbreed_oss.Graph.Refs.{GraphTexts}
use tekbreed_oss.Graph.Normal.{GraphEdge}
use tekbreed_oss.Graph.Normalize.{StoreOptions, StoredEdge, Store}
use tekbreed_oss.Graph.Upserts.{normalize_edges, set_edges, upsert_edges}
use tekbreed_oss.Graph.Upserts.Sound.{Answers, entries, IsNormal, normalize_edges_lem}

last_of-Distinct :
    {V : Type 0} (l : JsMap V) (k : String) → Distinct l → last_of l k ≡ JsMap.get l k
unfolding last_of JsMap.get
last_of-Distinct [] k d = refl
last_of-Distinct ((j, v) ∷ l) k d = ground (arith, last_of-Distinct l k d.1, eq_iff j k)

-- setEdge, on any fields.
nodes-set_edge :
    {Node Fields : Type 0} (s : GraphStore Node Fields) (e : StoredGraphEdge Fields)
    → (set_edge s e).nodes ≡ s.nodes
unfolding index_edge unindex_edge
nodes-set_edge s e = elim (Option-cases (JsMap.get s.edges e.id)) [
  | inl h ↦ rw (set_edge-none s e h) refl
  | inr (q, h) ↦ rw (set_edge-some s e h) refl
]

-- A node without connected edges is touched by none.
untouched :
    {Node Fields : Type 0} (s : GraphStore Node Fields) (id i : String)
    → IsReflected s
    → ltb 0 (length (connected_edge_ids s id)) ≡ false
    → JsMap.get s.edges i
      ≡ (if edge_has (touches id) (JsMap.get s.edges i) then none else JsMap.get s.edges i)
untouched s id i r alone = elim (Bool-cases (edge_has (touches id) (JsMap.get s.edges i))) [
  | inr e ↦ rw e refl
  | inl e ↦ absurd (
      ground (
        arith,
        alone,
        some_member (connected_edge_ids s id) i (includes-connected_edge_ids s id i r ∙ e),
      ))
]

-- deleteNode changes nothing, or takes out the node and the edges that touch it.
pub delete_node-view :
    {Node Fields : Type 0} (s : GraphStore Node Fields) (id : String) (cascade_edges : Bool)
    → IsReflected s
    → let s' = (delete_node s id cascade_edges).1 in
      (s' ≡ s)
      ⊎ (((j : String) → JsMap.get s'.nodes j ≡ (if id == j then none else JsMap.get s.nodes j))
          × ((i : String)
              → JsMap.get s'.edges i ≡ (
                  if edge_has (touches id) (JsMap.get s.edges i)
                  then none
                  else JsMap.get s.edges i)))
unfolding delete_node get_node get_edge
delete_node-view s id true r = elim (Bool-cases (has s.nodes id)) [
  | inr absent ↦ rw absent (inl refl)
  | inl present ↦ inr (
    λ j. (delete_node_cascades s id j j r present).1,
    λ i. (delete_node_cascades s id i i r present).2,
  )
]
delete_node-view s id false r = elim (Bool-cases (has s.nodes id)) [
  | inr absent ↦ rw absent (inl refl)
  | inl present ↦ elim (Bool-cases (ltb 0 (length (connected_edge_ids s id)))) [
    | inl busy ↦ rw (present, busy) (inl refl)
    | inr alone ↦ rw (present, alone) (inr (get-delete s.nodes id, λ i. untouched s id i r alone))
  ]
]

module _ (F : Floats) (texts : GraphTexts) (date_of : String → Option ℕ) (now : String)
    (options : StoreOptions) where
  edges-set_edges :
      (s : Store F) (es : List (StoredEdge F))
      → (set_edges F texts date_of now options s es).edges ≡ set_all s.edges (entries F es)
  unfolding set_edges set_all
  edges-set_edges s [] = refl
  edges-set_edges s (e ∷ es) =
      edges-set_edges (set_edge s e) es
      ∙ ap (λ edges. set_all edges (entries F es)) (edges-set_edge s e)

  pub nodes-set_edges :
      (s : Store F) (es : List (StoredEdge F))
      → (set_edges F texts date_of now options s es).nodes ≡ s.nodes
  unfolding set_edges
  nodes-set_edges s [] = refl
  nodes-set_edges s (e ∷ es) = nodes-set_edges (set_edge s e) es ∙ nodes-set_edge s e

  pub get-set_edges :
      (s : Store F) (es : List (StoredEdge F)) (i : String)
      → Distinct (entries F es)
      → JsMap.get (set_edges F texts date_of now options s es).edges i
        ≡ or_else (JsMap.get (entries F es) i) (JsMap.get s.edges i)
  get-set_edges s es i distinct =
      ap (λ m. JsMap.get m i) (edges-set_edges s es)
      ∙ get-set_all s.edges (entries F es) i
      ∙ ap (λ o. or_else o (JsMap.get s.edges i)) (last_of-Distinct (entries F es) i distinct)

  pub set_edges-IsReflected :
      (s : Store F) (es : List (StoredEdge F))
      → IsReflected s
      → IsReflected (set_edges F texts date_of now options s es)
  unfolding set_edges
  set_edges-IsReflected s [] r = r
  set_edges-IsReflected s (e ∷ es) r =
      set_edges-IsReflected (set_edge s e) es (set_edge-IsReflected s e r)

  pub upsert_edges-throw :
      (s : Store F) (edges : List (GraphEdge F.Float)) {error : GraphError}
      → normalize_edges F texts date_of now options s [] edges ≡ throw error
      → upsert_edges F texts date_of now options s edges ≡ (throw error, s)
  unfolding upsert_edges
  upsert_edges-throw s edges h = rw (h, upsert_edges) refl

  pub upsert_edges-ok :
      (s : Store F) (edges : List (GraphEdge F.Float)) {es : List (StoredEdge F)}
      → normalize_edges F texts date_of now options s [] edges ≡ ok es
      → upsert_edges F texts date_of now options s edges
        ≡ (ok es, set_edges F texts date_of now options s es)
  unfolding upsert_edges
  upsert_edges-ok s edges h = rw (h, upsert_edges) refl

  -- The batch was refused, or stands in the store.
  abbrev pub Upserted :
      Store F
      → List (GraphEdge F.Float)
      → Result GraphError (List (StoredEdge F)) × Store F
      → Type 0
  Upserted s edges (answer, s') =
      ((error : GraphError) × (answer ≡ throw error) × (s' ≡ s))
      ⊎ ((es : List (StoredEdge F)) × (answer ≡ ok es)
          × Answers F edges es
          × Distinct (entries F es)
          × All (IsNormal F texts date_of now options) es
          × (s'.nodes ≡ s.nodes)
          × ((i : String) → get_edge s' i ≡ or_else (JsMap.get (entries F es) i) (get_edge s i))
          × IsReflected s')

  -- On a store whose indices reflect its edges, upsertEdges either throws and leaves the store as
  -- it was, or returns an edge for each of the batch, in order, between the same nodes and under
  -- the id given, with distinct ids, weights and confidences between 0 and 1 and no self edge
  -- that the options exclude; then exactly these stand under their ids, every other edge and all
  -- nodes are as before, and the indices reflect the edges.
  pub upsert_edges_lem :
      (s : Store F) (edges : List (GraphEdge F.Float))
      → IsReflected s
      → Upserted s edges (upsert_edges F texts date_of now options s edges)
  unfolding get_edge
  upsert_edges_lem s edges r =
      elim (Result-cases (normalize_edges F texts date_of now options s [] edges)) [
        | inr (error, h) ↦ rw (upsert_edges-throw s edges h) (inl (error, refl, refl))
        | inl (es, h) ↦
            let (answers, distinct, normal) =
              normalize_edges_lem F texts date_of now options s [] edges h in
            rw (upsert_edges-ok s edges h) (
              inr (
                es,
                refl,
                answers,
                distinct,
                normal,
                nodes-set_edges s es,
                λ i. get-set_edges s es i distinct,
                set_edges-IsReflected s es r,
              ))
      ]
