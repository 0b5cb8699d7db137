-- ===== src/Graph/Upserts/Closed.antt =====
-- Sequences of calls that write to a store of in-memory-graph-store.ts: no edge dangles.
use tekbreed_oss.Prelude.{
  ℕ, String, ◌≡◌, refl, sym, inl, inr, Bool, true, false, Option, none, some, List, [], ◌∷◌, arith,
  ◌==◌, eq_iff, if◌then◌else◌, All, Bool-cases,
}
use mathlib.Core.Path.{subst}
use tekbreed_oss.Prelude.Floats.{Floats}
use tekbreed_oss.Prelude.Result.{ok, throw, Result-cases}
use tekbreed_oss.JsMap
use tekbreed_oss.JsMap.{has, Distinct, get-set}
use tekbreed_oss.JsMap.Bulk.{or_else}
use tekbreed_oss.Graph.{GraphError, remove_edge, delete_node, cleared}
use tekbreed_oss.Graph.Keys.{edge_has}
use tekbreed_oss.Graph.Reflected.{IsReflected, remove_edge-IsReflected}
use tekbreed_oss.Graph.Deletion.{
  touches, get-remove_edge, nodes-remove_edge, delete_node-IsReflected,
}
use tekbreed_oss.Graph.History.{cleared-IsReflected}
use tekbreed_oss.Graph.Refs.{GraphTexts}
use tekbreed_oss.Graph.Normal.{GraphNode, GraphEdge}
use tekbreed_oss.Graph.Normalize.{StoreOptions, StoredFields, StoredEdge, StoredNode, Store}
use tekbreed_oss.Graph.Upserts.{
  normalize_edges, set_edges, upsert_edges, normalize_nodes, set_nodes, upsert_nodes,
}
use tekbreed_oss.Graph.Upserts.Sound.{
  entries, IsNormal, HasEnds, normalize_edges_lem, normalize_edges-HasEnds,
}
use tekbreed_oss.Graph.Upserts.Batch.{
  delete_node-view, nodes-set_edges, get-set_edges, set_edges-IsReflected, upsert_edges-throw,
  upsert_edges-ok,
}

-- What holds of the edge under an id, if there is one.
abbrev pub Stored : {E : Type 0} → (E → Type 0) → Option E → Type 0
Stored P none = Unit {0}
Stored P (some e) = P e

module _ {E : Type 0} (P : E → Type 0) where
  Stored-or_else :
      (new before : Option E) → Stored P new → Stored P before → Stored P (or_else new before)
  Stored-or_else none before h g = g
  Stored-or_else (some e) before h g = h

  Stored-map : (Q : E → Type 0) (o : Option E) → ((e : E) → P e → Q e) → Stored P o → Stored Q o
  Stored-map Q none f h = tt
  Stored-map Q (some e) f h = f e h

has-set :
    {V : Type 0} (m : JsMap.JsMap V) (k j : String) (v : V)
    → has m j ≡ true
    → has (JsMap.set m k v) j ≡ true
has-set m k j v h = rw (get-set m k j v) (ground arith)

-- A call of upsertNodes or upsertEdges with its nowIso(), of deleteEdge, deleteNode or clear.
pub data Call (Float : Type 0) : Type 0 where
  upsert_nodes_call : String → List (GraphNode Float) → Call Float
  upsert_edges_call : String → List (GraphEdge Float) → Call Float
  delete_edge_call : String → Call Float
  delete_node_call : String → Bool → Call Float
  clear_call : Call Float

module _ (F : Floats) (texts : GraphTexts) (date_of : String → Option ℕ)
    (options : StoreOptions) where
  unfoldable pub step : Store F → Call F.Float → Store F
  step s (upsert_nodes_call now nodes) = (upsert_nodes F texts date_of now s nodes).1
  step s (upsert_edges_call now edges) = (upsert_edges F texts date_of now options s edges).1
  step s (delete_edge_call id) = (remove_edge s id).1
  step s (delete_node_call id cascade_edges) = (delete_node s id cascade_edges).1
  step s clear_call = cleared

  unfoldable pub run : Store F → List (Call F.Float) → Store F
  run s [] = s
  run s (call ∷ calls) = run (step s call) calls

  -- An edge between stored nodes, as normalizeEdge makes them.
  abbrev pub IsFact : Store F → StoredEdge F → Type 0
  IsFact s e = HasEnds F texts date_of "" options s e × IsNormal F texts date_of "" options e

  -- The indices reflect the edges, and every stored edge is such a fact.
  abbrev pub IsClosed : Store F → Type 0
  IsClosed s = IsReflected s × ((i : String) → Stored (IsFact s) (JsMap.get s.edges i))

  -- Facts stay facts where nodes are only added.
  IsFact-mono :
      (s s' : Store F)
      → ((k : String) → has s.nodes k ≡ true → has s'.nodes k ≡ true)
      → (e : StoredEdge F) → IsFact s e
      → IsFact s' e
  IsFact-mono s s' keeps e (ends, normal) = ((keeps e.from ends.0, keeps e.to ends.1), normal)

  Stored-entries :
      (P : StoredEdge F → Type 0) (es : List (StoredEdge F)) (i : String)
      → All P es
      → Stored P (JsMap.get (entries F es) i)
  unfolding JsMap.get
  Stored-entries P [] i all = tt
  Stored-entries P (e ∷ es) i all = elim (Bool-cases (e.id == i)) [
    | inl h ↦ rw h all.0
    | inr h ↦ rw h (Stored-entries P es i all.1)
  ]

  All-both :
      (P Q : StoredEdge F → Type 0) (es : List (StoredEdge F))
      → All P es
      → All Q es
      → All (λ e. P e × Q e) es
  All-both P Q [] p q = tt
  All-both P Q (e ∷ es) p q = ((p.0, q.0), All-both P Q es p.1 q.1)

  set_edges-IsClosed :
      (now : String) (s : Store F) (es : List (StoredEdge F))
      → Distinct (entries F es)
      → All (IsFact s) es
      → IsClosed s
      → IsClosed (set_edges F texts date_of now options s es)
  set_edges-IsClosed now s es distinct new (r, old) = (
    set_edges-IsReflected F texts date_of now options s es r,
    λ i. rw (get-set_edges F texts date_of now options s es i distinct) (
        Stored-map (IsFact s) _ _
          (IsFact-mono s (set_edges F texts date_of now options s es) (λ k h.
            subst (λ nodes. has nodes k ≡ true)
              (sym (nodes-set_edges F texts date_of now options s es)) h))
          (Stored-or_else (IsFact s) (JsMap.get (entries F es) i) (JsMap.get s.edges i)
            (Stored-entries (IsFact s) es i new) (old i))),
  )

  upsert_edges-IsClosed :
      (now : String) (s : Store F) (edges : List (GraphEdge F.Float))
      → options.require_existing_nodes ≡ true
      → IsClosed s
      → IsClosed (upsert_edges F texts date_of now options s edges).1
  upsert_edges-IsClosed now s edges required c =
      elim (Result-cases (normalize_edges F texts date_of now options s [] edges)) [
        | inr (error, h) ↦ rw (upsert_edges-throw F texts date_of now options s edges h) c
        | inl (es, h) ↦ rw (upsert_edges-ok F texts date_of now options s edges h) (
            let (answers, distinct, normal) =
              normalize_edges_lem F texts date_of now options s [] edges h in
            let ends = normalize_edges-HasEnds F texts date_of now options s [] edges required h in
            let facts =
              All-both (HasEnds F texts date_of now options s)
                (IsNormal F texts date_of now options) es ends normal in
            set_edges-IsClosed now s es distinct facts c)
      ]

  set_nodes-IsClosed :
      (now : String) (s : Store F) (ns : List (StoredNode F))
      → IsClosed s
      → IsClosed (set_nodes F texts date_of now s ns)
  unfolding set_nodes
  set_nodes-IsClosed now s [] c = c
  set_nodes-IsClosed now s (n ∷ ns) (r, facts) =
      set_nodes-IsClosed now (record s { nodes = JsMap.set s.nodes n.rest.id n }) ns
        (
          r,
          λ i.
              Stored-map (IsFact s) _ (JsMap.get s.edges i)
                (IsFact-mono s (record s { nodes = JsMap.set s.nodes n.rest.id n })
                  (λ k. has-set s.nodes n.rest.id k n))
                (facts i),
        )

  upsert_nodes-IsClosed :
      (now : String) (s : Store F) (nodes : List (GraphNode F.Float))
      → IsClosed s
      → IsClosed (upsert_nodes F texts date_of now s nodes).1
  upsert_nodes-IsClosed now s nodes c =
      elim (Result-cases (normalize_nodes F texts date_of now s [] nodes)) [
        | inr (error, h) ↦ rw (throws h) c
        | inl (ns, h) ↦ rw (returns h) (set_nodes-IsClosed now s ns c)
      ]
    where
      throws :
          {error : GraphError}
          → normalize_nodes F texts date_of now s [] nodes ≡ throw error
          → upsert_nodes F texts date_of now s nodes ≡ (throw error, s)
      throws h = unfold upsert_nodes in (rw (h, upsert_nodes) refl)

      returns :
          {ns : List (StoredNode F)}
          → normalize_nodes F texts date_of now s [] nodes ≡ ok ns
          → upsert_nodes F texts date_of now s nodes ≡ (ok ns, set_nodes F texts date_of now s ns)
      returns h = unfold upsert_nodes in (rw (h, upsert_nodes) refl)

  remove_edge-IsClosed : (s : Store F) (id : String) → IsClosed s → IsClosed (remove_edge s id).1
  remove_edge-IsClosed s id (r, facts) = (
    remove_edge-IsReflected s id r,
    λ i. rw (get-remove_edge s id i) (
        if_none (id == i) (JsMap.get s.edges i) (
          Stored-map (IsFact s) _ (JsMap.get s.edges i)
            (IsFact-mono s (remove_edge s id).1
              (λ k h. subst (λ nodes. has nodes k ≡ true) (sym (nodes-remove_edge s id)) h))
            (facts i))),
  )
    where
      if_none :
          (b : Bool) (o : Option (StoredEdge F))
          → Stored (IsFact (remove_edge s id).1) o
          → Stored (IsFact (remove_edge s id).1) (if b then none else o)
      if_none true o h = tt
      if_none false o h = h

  -- An edge that does not touch the node that is taken out keeps its ends.
  spared :
      (s s' : Store F) (id : String)
      → ((j : String) → JsMap.get s'.nodes j ≡ (if id == j then none else JsMap.get s.nodes j))
      → (o : Option (StoredEdge F)) → Stored (IsFact s) o
      → Stored (IsFact s') (if edge_has (touches id) o then none else o)
  spared s s' id view none h = tt
  spared s s' id view (some e) h = elim (Bool-cases (touches id e)) [
    | inl t ↦ rw t tt
    | inr t ↦ rw t (
        (
          (
            rw (view e.from) (ground (arith, h, eq_iff id e.from, eq_iff e.from id)),
            rw (view e.to) (ground (arith, h, eq_iff id e.to, eq_iff e.to id)),
          ),
          h.1,
        ))
  ]

  delete_node-IsClosed :
      (s : Store F) (id : String) (cascade_edges : Bool)
      → IsClosed s
      → IsClosed (delete_node s id cascade_edges).1
  delete_node-IsClosed s id cascade_edges (r, facts) =
      elim (delete_node-view s id cascade_edges r) [
        | inl same ↦ subst IsClosed (sym same) (r, facts)
        | inr (nodes, edges) ↦ (
          delete_node-IsReflected s id cascade_edges r,
          λ i. subst (Stored (IsFact (delete_node s id cascade_edges).1)) (sym (edges i)) (
              spared s (delete_node s id cascade_edges).1 id nodes (JsMap.get s.edges i) (facts i)),
        )
      ]

  cleared-IsClosed : IsClosed cleared
  unfolding cleared JsMap.get
  cleared-IsClosed = (cleared-IsReflected (StoredNode F) (StoredFields F), λ i. tt)

  step-IsClosed :
      (s : Store F) (call : Call F.Float)
      → options.require_existing_nodes ≡ true
      → IsClosed s
      → IsClosed (step s call)
  unfolding step
  step-IsClosed s (upsert_nodes_call now nodes) required c = upsert_nodes-IsClosed now s nodes c
  step-IsClosed s (upsert_edges_call now edges) required c =
      upsert_edges-IsClosed now s edges required c
  step-IsClosed s (delete_edge_call id) required c = remove_edge-IsClosed s id c
  step-IsClosed s (delete_node_call id cascade_edges) required c =
      delete_node-IsClosed s id cascade_edges c
  step-IsClosed s clear_call required c = cleared-IsClosed

  run-IsClosed :
      (s : Store F) (calls : List (Call F.Float))
      → options.require_existing_nodes ≡ true
      → IsClosed s
      → IsClosed (run s calls)
  unfolding run
  run-IsClosed s [] required c = c
  run-IsClosed s (call ∷ calls) required c =
      run-IsClosed (step s call) calls required (step-IsClosed s call required c)

  -- Where the store requires existing nodes: after any calls of upsertNodes, upsertEdges,
  -- deleteEdge, deleteNode and clear from an empty store, refused ones included, every stored
  -- edge is between stored nodes, a self edge only where the options allow it, its weight and
  -- confidence are finite and between 0 and 1, and the indices reflect the edges.
  pub reachable-IsClosed :
      (calls : List (Call F.Float))
      → options.require_existing_nodes ≡ true
      → IsClosed (run cleared calls)
  reachable-IsClosed calls required = run-IsClosed cleared calls required cleared-IsClosed
