-- ===== src/Graph/Keys.antt =====
-- One index of in-memory-graph-store.ts at one key and edge id, through a write of the edge.
use mathlib.Core.Path.{subst}
use tekbreed_oss.Prelude.{
  String, ◌≡◌, refl, sym, Bool, false, not, ◌||◌, ◌&&◌, ◌==◌, arith, eq_iff, Option, none, some,
  Bool-cases, inl, inr,
}
use tekbreed_oss.JsMap
use tekbreed_oss.JsMap.{get-set, get-delete}
use tekbreed_oss.Graph.{StoredGraphEdge}

module _ {Fields : Type 0} where
  abbrev pub edge_has : (StoredGraphEdge Fields → Bool) → Option (StoredGraphEdge Fields) → Bool
  edge_has p none = false
  edge_has p (some e) = p e

  -- One index at one key and id, when an edge is written under a new id, in place of another, or
  -- taken out. `p` says which edges are under the key.
  module _ (edges : JsMap.JsMap (StoredGraphEdge Fields)) (p : StoredGraphEdge Fields → Bool)
      (i : String) {old : Bool} where
    pub insert_at :
        (e : StoredGraphEdge Fields)
        → JsMap.get edges e.id ≡ none
        → old ≡ edge_has p (JsMap.get edges i)
        → (old || (p e && (e.id == i))) ≡ edge_has p (JsMap.get (JsMap.set edges e.id e) i)
    insert_at e h r = elim (Bool-cases (e.id == i)) [
      | inl f ↦
          rw (get-set edges e.id i e, f)
            (ground (
              arith,
              subst (λ j. old ≡ edge_has p (JsMap.get edges j)) (sym ((eq_iff e.id i).0 f)) r,
            ))
      | inr f ↦ rw (get-set edges e.id i e, f) (ground arith)
    ]

    pub replace_at :
        (e q : StoredGraphEdge Fields)
        → JsMap.get edges e.id ≡ some q
        → q.id ≡ e.id
        → old ≡ edge_has p (JsMap.get edges i)
        → ((old && not (p q && (q.id == i))) || (p e && (e.id == i)))
          ≡ edge_has p (JsMap.get (JsMap.set edges e.id e) i)
    replace_at e q h g r = elim (Bool-cases (e.id == i)) [
      | inl f ↦
          rw (get-set edges e.id i e, f)
            (ground (
              arith,
              subst (λ j. old ≡ edge_has p (JsMap.get edges j)) (sym ((eq_iff e.id i).0 f)) r,
              eq_iff q.id i,
              eq_iff e.id i,
            ))
      | inr f ↦ rw (get-set edges e.id i e, f) (ground (arith, eq_iff q.id i, eq_iff e.id i))
    ]

    pub remove_at :
        (id : String) (q : StoredGraphEdge Fields)
        → JsMap.get edges id ≡ some q
        → q.id ≡ id
        → old ≡ edge_has p (JsMap.get edges i)
        → (old && not (p q && (q.id == i))) ≡ edge_has p (JsMap.get (JsMap.delete edges id) i)
    remove_at id q h g r = elim (Bool-cases (id == i)) [
      | inl f ↦
          rw (get-delete edges id i, f)
            (ground (
              arith,
              subst (λ j. old ≡ edge_has p (JsMap.get edges j)) (sym ((eq_iff id i).0 f)) r,
              eq_iff q.id i,
              eq_iff id i,
            ))
      | inr f ↦ rw (get-delete edges id i, f) (ground (arith, eq_iff q.id i, eq_iff id i))
    ]

  pub own_id :
      (edges : JsMap.JsMap (StoredGraphEdge Fields)) (e : StoredGraphEdge Fields) (i : String)
      → edge_has (λ e. not (e.id == i)) (JsMap.get edges i) ≡ false
      → edge_has (λ e. not (e.id == i)) (JsMap.get (JsMap.set edges e.id e) i) ≡ false
  own_id edges e i h = elim (Bool-cases (e.id == i)) [
    | inl f ↦ rw (get-set edges e.id i e, f) (ground arith)
    | inr f ↦ rw (get-set edges e.id i e, f) h
  ]

  pub own_left :
      (edges : JsMap.JsMap (StoredGraphEdge Fields)) (id i : String)
      → edge_has (λ e. not (e.id == i)) (JsMap.get edges i) ≡ false
      → edge_has (λ e. not (e.id == i)) (JsMap.get (JsMap.delete edges id) i) ≡ false
  own_left edges id i h = elim (Bool-cases (id == i)) [
    | inl f ↦ rw (get-delete edges id i, f) refl
    | inr f ↦ rw (get-delete edges id i, f) h
  ]
