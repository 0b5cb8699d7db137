-- ===== src/Graph/Upserts/Crowded.antt =====
-- An edge whose source references have become too many.
use tekbreed_oss.Prelude.{
  ℕ, String, ◌≡◌, ap, ◌∙◌, false, Option, none, some, List, [], ◌∷◌, ◌++◌, ◌<◌, arith, inl, inr,
  ltb, length, get_or,
}
use mathlib.Core.Path.{subst}
use tekbreed_oss.Prelude.Floats.{Floats}
use tekbreed_oss.Prelude.Result.{ok, throw, Result-cases}
use tekbreed_oss.JsMap
use tekbreed_oss.Graph.{GraphError}
use tekbreed_oss.Graph.Refs.{
  GraphTexts, GraphSourceRef, merge_source_refs, add_groups, clone_source_refs,
}
use tekbreed_oss.Graph.Normal.{GraphEdge}
use tekbreed_oss.Graph.Normalize.{StoreOptions, StoredEdge, Store, edge_fields, normalize_edge}
use tekbreed_oss.Graph.Upserts.{resolve_edge_id, current_edge, normalize_edges, upsert_edges}
use tekbreed_oss.Graph.Upserts.Sound.{GivenId, normalize_edge_lem, current_edge-ok, round-ok}
use tekbreed_oss.Graph.Upserts.Batch.{upsert_edges-throw}

module _ (F : Floats) (texts : GraphTexts) (date_of : String → Option ℕ) (now : String)
    (options : StoreOptions) where
  -- An edge is merged only with one that has at most 32 references.
  normalize_edge-refs :
      (old : StoredEdge F) (input : GraphEdge F.Float) (refs : List GraphSourceRef)
      {e : StoredEdge F}
      → old.fields.rest.rest.source_refs ≡ some refs
      → normalize_edge F texts date_of now options (some old) input ≡ ok e
      → ltb 32 (length refs) ≡ false
  unfolding normalize_edge edge_fields merge_source_refs add_groups clone_source_refs
  normalize_edge-refs old input refs has h = ground arith

  resolve_edge_id-given :
      (edge : GraphEdge F.Float) (id : String) {found : String}
      → edge.id ≡ some id
      → resolve_edge_id F texts date_of now options edge ≡ ok found
      → found ≡ id
  unfolding resolve_edge_id
  resolve_edge_id-given edge id given h =
      elim (Result-cases (normalize_edge F texts date_of now options none edge)) [
        | inr (error, n) ↦ ground (arith, given, n)
        | inl (preview, n) ↦
            let (from, to, named, normal) =
              normalize_edge_lem F texts date_of now options none edge n in
            ground (arith, given, n, subst (λ o. GivenId o preview.id) given named)
      ]

  -- A batch that is accepted has every edge accepted.
  normalize_edges-each :
      (s : Store F) (seen : List String) (before after : List (GraphEdge F.Float))
      (edge : GraphEdge F.Float) {es : List (StoredEdge F)}
      → normalize_edges F texts date_of now options s seen (before ++ edge ∷ after) ≡ ok es
      → (e : StoredEdge F) × (current_edge F texts date_of now options s edge ≡ ok e)
  normalize_edges-each s seen [] after edge h =
      let (current, first, unseen, rest, later, e) =
        round-ok F texts date_of now options s seen edge after h in
      (current, first)
  normalize_edges-each s seen (x ∷ before) after edge h =
      let (current, first, unseen, rest, later, e) =
        round-ok F texts date_of now options s seen x (before ++ edge ∷ after) h in
      normalize_edges-each s (current.id ∷ seen) before after edge later

  -- Where a stored edge has more than 32 source references, every batch of upsertEdges that names
  -- it by its id throws and leaves the store as it was.
  pub upsert_edges_crowded :
      (s : Store F) (before after : List (GraphEdge F.Float)) (edge : GraphEdge F.Float)
      (id : String) (old : StoredEdge F) (refs : List GraphSourceRef)
      → edge.id ≡ some id
      → JsMap.get s.edges id ≡ some old
      → old.fields.rest.rest.source_refs ≡ some refs
      → 32 < length refs
      → (error : GraphError) × (upsert_edges F texts date_of now options s (before ++ edge ∷ after)
          ≡ (throw error, s))
  upsert_edges_crowded s before after edge id old refs given stored has many =
      elim (Result-cases
        (normalize_edges F texts date_of now options s [] (before ++ edge ∷ after))) [
          | inr (error, h) ↦
              (error, upsert_edges-throw F texts date_of now options s (before ++ edge ∷ after) h)
          | inl (es, h) ↦
              let (e, first) = normalize_edges-each s [] before after edge h in
              let (u, ends, found, resolved, last) =
                current_edge-ok F texts date_of now options s edge first in
              let same = resolve_edge_id-given edge id given resolved in
              let old_is = ap (JsMap.get s.edges) same ∙ stored in
              absurd (
                ground (
                  arith,
                  many,
                  normalize_edge-refs old (record edge { id = some (get_or edge.id found) }) refs
                      has
                      (subst
                        (λ o.
                          normalize_edge F texts date_of now options o
                            (record edge { id = some (get_or edge.id found) })
                          ≡ ok e)
                        old_is last),
                ))
        ]
