-- ===== src/Graph/Decay.antt =====
-- decayEdges of packages/tekmemo/src/graph/store/in-memory-graph-store.ts. `now_iso` is nowIso().
mod Tests
use mathlib.Core.Path.{subst}
use tekbreed_oss.Prelude.{
  ℕ, ◌+◌, String, ◌≡◌, refl, sym, ap, ◌∙◌, Bool, true, false, not, ◌&&◌, ◌||◌, Option, none, some,
  List, [], ◌∷◌, ◌==◌, eq_iff, eq_refl, arith, if◌then◌else◌, get_or, Bool-cases, Option-cases, inl,
  inr, is_some,
}
use tekbreed_oss.Prelude.Floats.{Floats}
use tekbreed_oss.Prelude.Json.{Json, Fields}
use tekbreed_oss.Prelude.Result.{Result, ok, throw, ◌>>=◌, ◌>>◌, >>=-eq-ok, ok-injective}
use tekbreed_oss.JsMap
use tekbreed_oss.JsMap.{JsMap, get-set, get-delete}
use tekbreed_oss.Graph.{GraphError, invalid, set_edge, remove_edge}
use tekbreed_oss.Graph.Filters.{type_out}
use tekbreed_oss.Graph.Metadata.{matches_metadata_filter}
use tekbreed_oss.Graph.Neighbors.{lower_types}
use tekbreed_oss.Graph.Queries.{EdgeRest, QueryStore, QueryEdge}
use tekbreed_oss.Graph.Reflected.{
  IsReflected, id_of, edges-set_edge, set_edge-IsReflected, remove_edge-IsReflected,
  remove_edge-some,
}

pub record GraphDecayInput (Float : Type 0) : Type 0 where
  pub factor : Float
  pub min_weight : Option Float
  pub edge_types : Option (List String)
  pub metadata : Option Fields
  pub now : Option String

absent : {A : Type 0} (o : Option A) → is_some o ≡ false → o ≡ none
absent none h = refl
absent (some a) h = cc

module _ (F : Floats) (Node Rest : Type 0) (date_of : String → Option ℕ) (clock : ℕ)
    (lower : String → String) (stringify : Json → String) (sort_keys : List String → List String)
    (now_iso : String) where
  abbrev pub DecayStore : Type 0
  DecayStore = QueryStore F Node Rest date_of clock lower stringify sort_keys

  abbrev pub DecayEdge : Type 0
  DecayEdge = QueryEdge F Node Rest date_of clock lower stringify sort_keys

  -- validateUnitNumber
  abbrev validate_unit_number : F.Float → String → Result GraphError (Unit {0})
  validate_unit_number value field =
      if not (F.finite value) || F.lt value (F.of_nat 0) || F.lt (F.of_nat 1) value
      then throw (invalid field)
      else ok tt

  -- the edges that the loop passes over
  abbrev pub is_skipped : GraphDecayInput F.Float → DecayEdge → Bool
  is_skipped input e =
      type_out (lower_types F Node (EdgeRest Rest) date_of clock lower input.edge_types) e.type
      || not (matches_metadata_filter stringify sort_keys e.fields.rest.metadata input.metadata)

  -- Math.max(0, edge.weight * input.factor)
  abbrev pub next_weight : GraphDecayInput F.Float → DecayEdge → F.Float
  next_weight input e =
      let w = F.mul e.fields.weight input.factor in if F.lt (F.of_nat 0) w then w else F.of_nat 0

  abbrev pub is_dropped : GraphDecayInput F.Float → DecayEdge → Bool
  is_dropped input e = F.lt (next_weight input e) (get_or input.min_weight (F.of_nat 0))

  -- the edge that is stored in place of one
  abbrev pub decayed_edge : GraphDecayInput F.Float → DecayEdge → DecayEdge
  decayed_edge input e = record e {
    fields = record {
      temporal = e.fields.temporal;
      weight = next_weight input e;
      rest = record {
        metadata = e.fields.rest.metadata;
        updated_at = get_or input.now now_iso;
        rest = e.fields.rest.rest;
      };
    };
  }

  -- one round of the loop: the store, and how many edges were updated and deleted
  unfoldable pub decay_edge :
      GraphDecayInput F.Float → DecayStore × ℕ × ℕ → DecayEdge → DecayStore × ℕ × ℕ
  decay_edge input (s, updated, deleted) e =
      if is_skipped input e
      then (s, updated, deleted)
      else if is_dropped input e
      then ((remove_edge s e.id).1, updated, deleted + 1)
      else (set_edge s (decayed_edge input e), updated + 1, deleted)

  unfoldable pub decay_all :
      GraphDecayInput F.Float → DecayStore × ℕ × ℕ → List DecayEdge → DecayStore × ℕ × ℕ
  decay_all input state [] = state
  decay_all input state (e ∷ es) = decay_all input (decay_edge input state e) es

  -- decayEdges
  unfoldable pub decay_edges :
      DecayStore → GraphDecayInput F.Float → Result GraphError (DecayStore × ℕ × ℕ)
  decay_edges s input = do
    validate_unit_number input.factor "factor"
    validate_unit_number (get_or input.min_weight (F.of_nat 0)) "minWeight"
    ok (decay_all input (s, 0, 0) (JsMap.values s.edges))

  -- What stands in the place of an edge afterwards.
  abbrev pub outcome : GraphDecayInput F.Float → DecayEdge → Option DecayEdge
  outcome input e =
      if is_skipped input e
      then some e
      else if is_dropped input e
      then none
      else some (decayed_edge input e)

  -- A round keeps the indices, and touches its own edge only.
  decay_edge-IsReflected :
      (input : GraphDecayInput F.Float) (state : DecayStore × ℕ × ℕ) (e : DecayEdge)
      → IsReflected state.0
      → IsReflected (decay_edge input state e).0
  unfolding decay_edge
  decay_edge-IsReflected input (s, u, d) e r = elim (Bool-cases (is_skipped input e)) [
    | inl k ↦ rw (k, decay_edge) r
    | inr k ↦ elim (Bool-cases (is_dropped input e)) [
      | inl g ↦ rw (k, g, decay_edge) (remove_edge-IsReflected s e.id r)
      | inr g ↦ rw (k, g, decay_edge) (set_edge-IsReflected s (decayed_edge input e) r)
    ]
  ]

  get-decay_edge :
      (input : GraphDecayInput F.Float) (state : DecayStore × ℕ × ℕ) (e : DecayEdge) (i : String)
      → JsMap.get state.0.edges e.id ≡ some e
      → JsMap.get (decay_edge input state e).0.edges i
        ≡ (if e.id == i then outcome input e else JsMap.get state.0.edges i)
  unfolding decay_edge
  get-decay_edge input (s, u, d) e i h = elim (Bool-cases (is_skipped input e)) [
    | inl k ↦
        rw (k, decay_edge)
          (elim (Bool-cases (e.id == i)) [
            | inl x ↦ rw x (subst (λ j. JsMap.get s.edges j ≡ some e) ((eq_iff e.id i).0 x) h)
            | inr x ↦ rw x refl
          ])
    | inr k ↦ elim (Bool-cases (is_dropped input e)) [
      | inl g ↦ rw (k, g, decay_edge) (rw (remove_edge-some s e.id h) (get-delete s.edges e.id i))
      | inr g ↦
          rw (k, g, decay_edge)
            (ap (λ m. JsMap.get m i) (edges-set_edge s (decayed_edge input e))
              ∙ get-set s.edges e.id i (decayed_edge input e))
    ]
  ]

  -- The same for an edge that may be missing.
  abbrev pub after :
      GraphDecayInput F.Float → Option DecayEdge → Option DecayEdge → Option DecayEdge
  after input none old = old
  after input (some x) old = outcome input x

  after-none :
      (input : GraphDecayInput F.Float) (o : Option DecayEdge)
      → after input o o ≡ after input o none
  after-none input none = refl
  after-none input (some x) = refl

  -- The loop over the edges of a map with which the store agrees.
  get-decay_all :
      (input : GraphDecayInput F.Float) (m : JsMap DecayEdge) (state : DecayStore × ℕ × ℕ)
      → IsReflected state.0
      → JsMap.Distinct m
      → ((j : String) (x : DecayEdge) → JsMap.get m j ≡ some x → JsMap.get state.0.edges j ≡ some x)
      → (i : String)
      → (JsMap.get (decay_all input state (JsMap.values m)).0.edges i
          ≡ after input (JsMap.get m i) (JsMap.get state.0.edges i))
        × IsReflected (decay_all input state (JsMap.values m)).0
  unfolding decay_all JsMap.get
  get-decay_all input [] state r distinct agree i = (refl, r)
  get-decay_all input ((k, e) ∷ m) state r distinct agree i =
      let stored = agree k e (rw (eq_refl k) refl) in
      let own = id_of state.0 k r stored in
      let stored' = subst (λ j. JsMap.get state.0.edges j ≡ some e) (sym own) stored in
      let round = λ (j : String).
        subst
          (λ l.
            JsMap.get (decay_edge input state e).0.edges j
            ≡ (if l == j then outcome input e else JsMap.get state.0.edges j))
          own (get-decay_edge input state e j stored') in
      let gone = λ (j : String) (same : (k == j) ≡ true).
        subst (λ l. JsMap.get m l ≡ none) ((eq_iff k j).0 same)
          (absent (JsMap.get m k) distinct.0) in
      let (rest, kept) =
        get-decay_all input m (decay_edge input state e) (decay_edge-IsReflected input state e r)
          distinct.1
          (λ j x h. elim (Bool-cases (k == j)) [
            | inl same ↦ (let g = gone j same in cc)
            | inr other ↦ round j ∙ rw other (agree j x (rw other h))
          ])
          i in
      (
        elim (Bool-cases (k == i)) [
          | inl same ↦ rest ∙ rw (same, gone i same) (rw same at (round i))
          | inr other ↦
              rest ∙ ap (after input (JsMap.get m i)) (rw other at (round i)) ∙ rw other refl
        ],
        kept,
      )

  -- On a store whose indices reflect its edges and with no edge id twice, a decayEdges that
  -- returns leaves under each id what stands in the place of the edge there: the edge itself
  -- where the types or the metadata pass it over, nothing where its weight times the factor,
  -- raised to zero, is below the least weight, and otherwise the edge with that weight and the
  -- new date; an id without an edge has none, and the indices still reflect the edges.
  pub decay_edges_lem :
      (s : DecayStore) (input : GraphDecayInput F.Float) (i : String) {s' : DecayStore}
      {updated deleted : ℕ}
      → IsReflected s
      → JsMap.Distinct s.edges
      → decay_edges s input ≡ ok (s', updated, deleted)
      → (JsMap.get s'.edges i ≡ after input (JsMap.get s.edges i) none) × IsReflected s'
  unfolding decay_edges
  decay_edges_lem s input i {s'} r distinct h =
      let (_, _, h₁) = >>=-eq-ok (validate_unit_number input.factor "factor") _ h in
      let (_, _, h₂) =
        >>=-eq-ok (validate_unit_number (get_or input.min_weight (F.of_nat 0)) "minWeight") _ h₁ in
      let same = ap (λ (o : DecayStore × ℕ × ℕ). o.0) (ok-injective h₂) in
      let (got, kept) = get-decay_all input s.edges (s, 0, 0) r distinct (λ j x g. g) i in
      subst
        (λ (t : DecayStore).
          (JsMap.get t.edges i ≡ after input (JsMap.get s.edges i) none) × IsReflected t)
        same (got ∙ after-none input (JsMap.get s.edges i), kept)
