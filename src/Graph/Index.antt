-- ===== src/Graph/Index.antt =====
-- What indexEdge and unindexEdge of in-memory-graph-store.ts do to each index.
use tekbreed_oss.Prelude.{String, ◌≡◌, Bool, not, ◌||◌, ◌&&◌, ◌==◌, arith}
use tekbreed_oss.Graph.{
  StoredGraphEdge, GraphStore, index_edge, unindex_edge, add_to_index, remove_from_index,
}
use tekbreed_oss.Graph.Sets.{in_index, in_index-add_to_index, in_index-remove_from_index}

module _ {Fields : Type 0} where
  -- The edge can be taken from the node; an undirected one from both ends.
  abbrev pub leaves : String → StoredGraphEdge Fields → Bool
  leaves k e = (e.from == k) || (not e.directed && (e.to == k))

  abbrev pub enters : String → StoredGraphEdge Fields → Bool
  enters k e = (e.to == k) || (not e.directed && (e.from == k))

  abbrev pub has_type : String → StoredGraphEdge Fields → Bool
  has_type k e = e.type == k

module _ {Node Fields : Type 0} (s : GraphStore Node Fields) (e : StoredGraphEdge Fields)
    (k i : String) where
  pub outgoing-index_edge :
      in_index (index_edge s e).outgoing k i
      ≡ (in_index s.outgoing k i || (leaves k e && (e.id == i)))
  unfolding index_edge
  outgoing-index_edge = ground (
    arith,
    in_index-add_to_index s.outgoing e.from e.id k i,
    in_index-add_to_index (add_to_index s.outgoing e.from e.id) e.to e.id k i,
  )

  pub incoming-index_edge :
      in_index (index_edge s e).incoming k i
      ≡ (in_index s.incoming k i || (enters k e && (e.id == i)))
  unfolding index_edge
  incoming-index_edge = ground (
    arith,
    in_index-add_to_index s.incoming e.to e.id k i,
    in_index-add_to_index (add_to_index s.incoming e.to e.id) e.from e.id k i,
  )

  pub by_type-index_edge :
      in_index (index_edge s e).by_type k i
      ≡ (in_index s.by_type k i || (has_type k e && (e.id == i)))
  unfolding index_edge
  by_type-index_edge = in_index-add_to_index s.by_type e.type e.id k i

  pub outgoing-unindex_edge :
      in_index (unindex_edge s e).outgoing k i
      ≡ (in_index s.outgoing k i && not (leaves k e && (e.id == i)))
  unfolding unindex_edge
  outgoing-unindex_edge = ground (
    arith,
    in_index-remove_from_index s.outgoing e.from e.id k i,
    in_index-remove_from_index (remove_from_index s.outgoing e.from e.id) e.to e.id k i,
  )

  pub incoming-unindex_edge :
      in_index (unindex_edge s e).incoming k i
      ≡ (in_index s.incoming k i && not (enters k e && (e.id == i)))
  unfolding unindex_edge
  incoming-unindex_edge = ground (
    arith,
    in_index-remove_from_index s.incoming e.to e.id k i,
    in_index-remove_from_index (remove_from_index s.incoming e.to e.id) e.from e.id k i,
  )

  pub by_type-unindex_edge :
      in_index (unindex_edge s e).by_type k i
      ≡ (in_index s.by_type k i && not (has_type k e && (e.id == i)))
  unfolding unindex_edge
  by_type-unindex_edge = in_index-remove_from_index s.by_type e.type e.id k i
