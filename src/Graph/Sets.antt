-- ===== src/Graph/Sets.antt =====
-- Membership in the sets and the indices of in-memory-graph-store.ts.
use tekbreed_oss.Prelude.{
  String, ◌≡◌, refl, Bool, true, false, not, ◌||◌, ◌&&◌, List, [], ◌∷◌, arith, ◌==◌, eq_iff,
  includes, includes-append, Option-cases, inl, inr,
}
use tekbreed_oss.JsMap
use tekbreed_oss.JsMap.{get-set, get-delete}
use tekbreed_oss.Graph.{
  Index, set_add, set_delete, set_of, ids_at, add_to_index, remove_from_index, is_empty,
}

pub includes-set_add :
    (s : List String) (v w : String) → includes (set_add s v) w ≡ (includes s w || (v == w))
unfolding set_add includes
includes-set_add s v w = ground (arith, includes-append s (v ∷ []) w, eq_iff v w)

pub includes-set_delete :
    (s : List String) (v w : String) → includes (set_delete s v) w ≡ (includes s w && not (v == w))
unfolding set_delete includes
includes-set_delete [] v w = refl
includes-set_delete (u ∷ s) v w =
    ground (arith, includes-set_delete s v w, eq_iff u v, eq_iff u w, eq_iff v w)

pub includes-set_of :
    (s values : List String) (w : String)
    → includes (set_of s values) w ≡ (includes s w || includes values w)
unfolding set_of includes
includes-set_of s [] w = ground arith
includes-set_of s (v ∷ values) w =
    ground (arith, includes-set_of (set_add s v) values w, includes-set_add s v w)

-- An edge id in the set that an index has for a key.
abbrev pub in_index : Index → String → String → Bool
in_index index key id = includes (ids_at index key) id

pub in_index-add_to_index :
    (index : Index) (k v key id : String)
    → in_index (add_to_index index k v) key id
      ≡ (in_index index key id || ((k == key) && (v == id)))
unfolding add_to_index
in_index-add_to_index index k v key id = ground (
  arith,
  get-set index k key (set_add (ids_at index k) v),
  includes-set_add (ids_at index k) v id,
  eq_iff k key,
)

empty_includes : (s : List String) (w : String) → is_empty s ≡ true → includes s w ≡ false
unfolding includes
empty_includes [] w h = refl
empty_includes (v ∷ s) w h = ground arith

pub in_index-remove_from_index :
    (index : Index) (k v key id : String)
    → in_index (remove_from_index index k v) key id
      ≡ (in_index index key id && not ((k == key) && (v == id)))
unfolding remove_from_index includes
in_index-remove_from_index index k v key id = elim (Option-cases (JsMap.get index k)) [
  | inl e ↦ rw (e, remove_from_index) (ground (arith, eq_iff k key))
  | inr (s, e) ↦
      rw (e, remove_from_index)
        (ground (
          arith,
          get-set index k key (set_delete s v),
          get-delete index k key,
          includes-set_delete s v id,
          empty_includes (set_delete s v) id,
          eq_iff k key,
        ))
]
