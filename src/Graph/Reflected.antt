-- ===== src/Graph/Reflected.antt =====
-- The indices of in-memory-graph-store.ts hold exactly what the edges say, through setEdge and
-- removeEdge.
use mathlib.Core.Path.{subst}
use tekbreed_oss.Prelude.{
  String, ◌≡◌, refl, ap, ◌∙◌, true, false, not, ◌||◌, ◌&&◌, ◌==◌, arith, eq_iff, none, some,
  Option-cases, inl, inr,
}
use tekbreed_oss.JsMap
use tekbreed_oss.JsMap.{get-set, get-delete}
use tekbreed_oss.Graph.{
  StoredGraphEdge, GraphStore, index_edge, unindex_edge, set_edge, remove_edge,
}
use tekbreed_oss.Graph.Keys.{edge_has, insert_at, replace_at, remove_at, own_id, own_left}
use tekbreed_oss.Graph.Sets.{in_index}
use tekbreed_oss.Graph.Index.{
  leaves, enters, has_type, outgoing-index_edge, incoming-index_edge, by_type-index_edge,
  outgoing-unindex_edge, incoming-unindex_edge, by_type-unindex_edge,
}

module _ {Node Fields : Type 0} where
  -- For each key and edge id: the id is in an index under the key just if there is such an edge and
  -- it leaves the node, enters it, or has the type; and an edge has the id that it stands under.
  abbrev pub IsReflected : GraphStore Node Fields → Type 0
  IsReflected s =
      (k i : String)
      → (in_index s.outgoing k i ≡ edge_has (leaves k) (JsMap.get s.edges i))
        × (in_index s.incoming k i ≡ edge_has (enters k) (JsMap.get s.edges i))
        × (in_index s.by_type k i ≡ edge_has (has_type k) (JsMap.get s.edges i))
        × (edge_has (λ e. not (e.id == i)) (JsMap.get s.edges i) ≡ false)

  -- The id that an edge stands under is its own.
  pub id_of :
      (s : GraphStore Node Fields) (id : String) {q : StoredGraphEdge Fields}
      → IsReflected s
      → JsMap.get s.edges id ≡ some q
      → q.id ≡ id
  id_of s id {q} r h =
      (eq_iff q.id id).0
        (own (subst (λ o. edge_has (λ e. not (e.id == id)) o ≡ false) h (r id id).3))
    where
      own : not (q.id == id) ≡ false → (q.id == id) ≡ true
      own f = ground arith

  pub set_edge-none :
      (s : GraphStore Node Fields) (e : StoredGraphEdge Fields)
      → JsMap.get s.edges e.id ≡ none
      → set_edge s e ≡ index_edge (record s { edges = JsMap.set s.edges e.id e }) e
  unfolding set_edge
  set_edge-none s e h = rw (h, set_edge) refl

  pub set_edge-some :
      (s : GraphStore Node Fields) (e : StoredGraphEdge Fields) {q : StoredGraphEdge Fields}
      → JsMap.get s.edges e.id ≡ some q
      → set_edge s e ≡ index_edge (record (unindex_edge s q) { edges = JsMap.set s.edges e.id e }) e
  unfolding set_edge unindex_edge
  set_edge-some s e h = rw (h, set_edge) refl

  pub edges-set_edge :
      (s : GraphStore Node Fields) (e : StoredGraphEdge Fields)
      → (set_edge s e).edges ≡ JsMap.set s.edges e.id e
  unfolding index_edge
  edges-set_edge s e = elim (Option-cases (JsMap.get s.edges e.id)) [
    | inl h ↦ rw (set_edge-none s e h) refl
    | inr (q, h) ↦ rw (set_edge-some s e h) refl
  ]

  pub set_edge-IsReflected :
      (s : GraphStore Node Fields) (e : StoredGraphEdge Fields)
      → IsReflected s
      → IsReflected (set_edge s e)
  set_edge-IsReflected s e r k i = elim (Option-cases (JsMap.get s.edges e.id)) [
    | inl h ↦
        rw (edges-set_edge s e, set_edge-none s e h)
          (let new = record s { edges = JsMap.set s.edges e.id e } in
            (
              outgoing-index_edge new e k i ∙ insert_at s.edges (leaves k) i e h (r k i).0,
              incoming-index_edge new e k i ∙ insert_at s.edges (enters k) i e h (r k i).1,
              by_type-index_edge new e k i ∙ insert_at s.edges (has_type k) i e h (r k i).2,
              own_id s.edges e i (r k i).3,
            ))
    | inr (q, h) ↦
        rw (edges-set_edge s e, set_edge-some s e h)
          (let new = record (unindex_edge s q) { edges = JsMap.set s.edges e.id e } in
            let same = id_of s e.id r h in
            (
              outgoing-index_edge new e k i
                  ∙ ap (λ b. b || (leaves k e && (e.id == i))) (outgoing-unindex_edge s q k i)
                  ∙ replace_at s.edges (leaves k) i e q h same (r k i).0,
              incoming-index_edge new e k i
                  ∙ ap (λ b. b || (enters k e && (e.id == i))) (incoming-unindex_edge s q k i)
                  ∙ replace_at s.edges (enters k) i e q h same (r k i).1,
              by_type-index_edge new e k i
                  ∙ ap (λ b. b || (has_type k e && (e.id == i))) (by_type-unindex_edge s q k i)
                  ∙ replace_at s.edges (has_type k) i e q h same (r k i).2,
              own_id s.edges e i (r k i).3,
            ))
  ]

  pub remove_edge-none :
      (s : GraphStore Node Fields) (id : String)
      → JsMap.get s.edges id ≡ none
      → remove_edge s id ≡ (false, s)
  unfolding remove_edge
  remove_edge-none s id h = rw (h, remove_edge) refl

  pub remove_edge-some :
      (s : GraphStore Node Fields) (id : String) {q : StoredGraphEdge Fields}
      → JsMap.get s.edges id ≡ some q
      → remove_edge s id ≡ (true, record (unindex_edge s q) { edges = JsMap.delete s.edges id })
  unfolding remove_edge unindex_edge
  remove_edge-some s id h = rw (h, remove_edge) refl

  pub remove_edge-IsReflected :
      (s : GraphStore Node Fields) (id : String) → IsReflected s → IsReflected (remove_edge s id).1
  remove_edge-IsReflected s id r k i = elim (Option-cases (JsMap.get s.edges id)) [
    | inl h ↦ rw (remove_edge-none s id h) (r k i)
    | inr (q, h) ↦ rw (remove_edge-some s id h) (
        let same = id_of s id r h in
        (
          outgoing-unindex_edge s q k i ∙ remove_at s.edges (leaves k) i id q h same (r k i).0,
          incoming-unindex_edge s q k i ∙ remove_at s.edges (enters k) i id q h same (r k i).1,
          by_type-unindex_edge s q k i ∙ remove_at s.edges (has_type k) i id q h same (r k i).2,
          own_left s.edges id i (r k i).3,
        ))
  ]
