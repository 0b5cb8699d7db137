-- ===== src/Recall/History.antt =====
-- Sequences of calls on the in-memory recall store, and what holds after them.
use mathlib.Core.Path.{subst}
use tekbreed_oss.Prelude.{
  ℕ, String, ◌≡◌, refl, ◌∙◌, Bool, true, Option, none, some, List, [], ◌∷◌, eqb, length, All,
  All-map, Bool-cases, Option-cases, inl, inr,
}
use tekbreed_oss.Prelude.Floats.{Floats}
use tekbreed_oss.Prelude.Number.{JsNumber}
use tekbreed_oss.Prelude.Result.{ok, throw, ◌>>◌, >>=-eq-ok, ok-injective, Result-cases}
use tekbreed_oss.JsMap
use tekbreed_oss.JsMap.{JsMap}
use tekbreed_oss.JsMap.Bulk.{set_all}
use tekbreed_oss.JsMap.Entries.{Entries, Entries-set, Entries-delete}
use tekbreed_oss.Recall.Validation.{
  Checked, validate_embedding, validate_recall_document, validate_recall_documents, has_dimension,
  assert_safe_id, assert_non_empty_string, normalize_namespace,
}
use tekbreed_oss.Recall.{
  Store, Document, StoredDocument, DeleteBySourceInput, DuplicateBehavior, key, upsert, delete,
  delete_ids, delete_where, delete_by_source, clear, new_store, expected_dimension, check_dimension,
}
use tekbreed_oss.Recall.Batch.{entry, entries, upsert-cases}

Entries-set_all :
    {V : Type 0} (P : String → V → Type 0) (m : JsMap V) (l : List (String × V))
    → Entries P m
    → All (λ e. P e.0 e.1) l
    → Entries P (set_all m l)
unfolding set_all
Entries-set_all P m [] all new = all
Entries-set_all P m ((k, v) ∷ l) all new =
    Entries-set_all P (JsMap.set m k v) l (Entries-set P m k v all new.0) new.1

-- Two checks in a row that pass.
both-ok : (a b : Checked (Unit {0})) → (a >> b) ≡ ok tt → (a ≡ ok tt) × (b ≡ ok tt)
both-ok (ok _) b h = (refl, h)
both-ok (throw e) b h = cc

module _ (F : Floats) where
  -- An embedding that is accepted has the dimension, and is accepted where none is expected.
  pub validate_embedding-ok :
      (e : List F.Float) (expected : Option ℕ)
      → validate_embedding F e expected ≡ ok tt
      → (has_dimension F expected (length e) ≡ true) × (validate_embedding F e none ≡ ok tt)
  unfolding validate_embedding
  validate_embedding-ok e expected h = elim (Bool-cases (eqb (length e) 0)) [
    | inl z ↦ cc (rw z at h)
    | inr z ↦ elim (Bool-cases (has_dimension F expected (length e))) [
      | inl d ↦ (d, rw (z, validate_embedding) (rw (z, d, validate_embedding) at h))
      | inr d ↦ cc (rw (z, d, validate_embedding) at h)
    ]
  ]

module _ (F : Floats) (trim : String → String) where
  pub data Call : Type 0 where
    upsert_call : String → List (Document F trim) → Call
    delete_call : List String → Option String → Call
    delete_by_source_call : DeleteBySourceInput → Call
    clear_call : Option String → Call

  -- the store after one call, also where the call throws
  unfoldable pub step : Store F trim → Call → Store F trim
  step s (upsert_call now ds) = (upsert F trim s now ds).0
  step s (delete_call ids namespace) = (delete F trim s ids namespace).0
  step s (delete_by_source_call input) = (delete_by_source F trim s input).0
  step s (clear_call namespace) = (clear F trim s namespace).0

  unfoldable pub run : Store F trim → List Call → Store F trim
  run s [] = s
  run s (c ∷ cs) = run (step s c) cs

  -- A document stands under its own key, and its embedding is accepted for the dimension.
  abbrev pub IsStored : Option ℕ → String → StoredDocument F.Float → Type 0
  IsStored dim k d = (k ≡ key d.namespace d.id) × (validate_embedding F d.embedding dim ≡ ok tt)

  -- The dimension is the one configured, and every document is in order.
  abbrev pub IsUniform : Option ℕ → Store F trim → Type 0
  IsUniform dim s = (s.dimension ≡ dim) × Entries (IsStored dim) s.documents

  validate_recall_documents-embeddings :
      (ds : List (Document F trim)) (expected : Option ℕ)
      → validate_recall_documents F trim ds expected ≡ ok tt
      → All (λ (d : Document F trim). validate_embedding F d.embedding expected ≡ ok tt) ds
  unfolding validate_recall_documents validate_recall_document
  validate_recall_documents-embeddings [] expected h = tt
  validate_recall_documents-embeddings (d ∷ ds) expected h =
      let (v, rest) = both-ok (validate_recall_document F trim d expected) _ h in
      let (before_namespace, _) = both-ok _ _ v in
      let (before_metadata, _) = both-ok _ _ before_namespace in
      (
        (both-ok (assert_safe_id trim d.id >> assert_non_empty_string trim d.text) _
            before_metadata).1,
        validate_recall_documents-embeddings ds expected rest,
      )

  -- Where the configured dimension is none, the inferred one is forgotten.
  IsStored-entry :
      (s : Store F trim) (now : String) (d : Document F trim)
      → validate_embedding F d.embedding (expected_dimension s) ≡ ok tt
      → IsStored s.dimension (entry F trim s now d).0 (entry F trim s now d).1
  IsStored-entry s now d h = elim (Option-cases s.dimension) [
    | inl e ↦ (refl, rw e (validate_embedding-ok F d.embedding (expected_dimension s) h).1)
    | inr (n, e) ↦ (refl, rw e (rw e at h))
  ]

  delete_where-Entries :
      (P : String → StoredDocument F.Float → Type 0) (test : String × StoredDocument F.Float → Bool)
      (l m : JsMap (StoredDocument F.Float))
      → Entries P m
      → Entries P (delete_where F trim test l m)
  unfolding delete_where
  delete_where-Entries P test [] m all = all
  delete_where-Entries P test (e ∷ l) m all = elim (Bool-cases (test e)) [
    | inl t ↦ delete_where-Entries P test l _ (rw t (Entries-delete P m e.0 all))
    | inr t ↦ delete_where-Entries P test l _ (rw t all)
  ]

  delete_ids-IsUniform :
      (dim : Option ℕ) (s : Store F trim) (namespace : String) (ids : List String)
      → IsUniform dim s
      → IsUniform dim (delete_ids F trim s namespace ids).0
  unfolding delete_ids
  delete_ids-IsUniform dim s namespace [] u = u
  delete_ids-IsUniform dim s namespace (id ∷ ids) u = elim (Result-cases (assert_safe_id trim id)) [
    | inr (e, a) ↦ rw (a, delete_ids) u
    | inl (_, a) ↦
        rw (a, delete_ids)
          (delete_ids-IsUniform dim
            (record s { documents = JsMap.delete s.documents (key namespace id) }) namespace ids
            (u.0, Entries-delete (IsStored dim) s.documents (key namespace id) u.1))
  ]

  upsert-IsUniform :
      (dim : Option ℕ) (s : Store F trim) (now : String) (ds : List (Document F trim))
      → IsUniform dim s
      → IsUniform dim (upsert F trim s now ds).0
  upsert-IsUniform dim s now ds u = elim (upsert-cases F trim s now ds) [
    | inl (_, e) ↦ rw e u
    | inr (s', e, keeps, _, v) ↦
        let accepted =
          All-map ds
            (λ d a.
              subst (λ x. IsStored x (entry F trim s now d).0 (entry F trim s now d).1) u.0
                (IsStored-entry s now d a))
            (validate_recall_documents-embeddings ds (expected_dimension s) v) in
        rw e (
          keeps.2 ∙ u.0,
          Entries-set_all (IsStored dim) s.documents (entries F trim s now ds) u.1
              (All-entries s now ds accepted),
        )
  ]
    where
      All-entries :
          (s : Store F trim) (now : String) (ds : List (Document F trim))
          → All
              (λ (d : Document F trim).
                IsStored dim (entry F trim s now d).0 (entry F trim s now d).1)
              ds
          → All (λ e. IsStored dim e.0 e.1) (entries F trim s now ds)
      All-entries s now [] all = tt
      All-entries s now (d ∷ ds) all = (all.0, All-entries s now ds all.1)

  step-IsUniform :
      (dim : Option ℕ) (s : Store F trim) (c : Call) → IsUniform dim s → IsUniform dim (step s c)
  unfolding step delete delete_by_source clear
  step-IsUniform dim s (upsert_call now ds) u = upsert-IsUniform dim s now ds u
  step-IsUniform dim s (delete_call ids namespace) u =
      elim (Result-cases (normalize_namespace trim namespace s.default_namespace)) [
        | inr (_, e) ↦ rw (e, step, delete) u
        | inl (ns, e) ↦ rw (e, step, delete) (delete_ids-IsUniform dim s ns ids u)
      ]
  step-IsUniform dim s (delete_by_source_call input) u =
      elim (Result-cases (
        assert_safe_id trim input.project_id
        >> assert_safe_id trim input.source_type
        >> assert_safe_id trim input.source_id
        >> normalize_namespace trim input.namespace s.default_namespace)) [
          | inr (_, e) ↦ rw (e, step, delete_by_source) u
          | inl (ns, e) ↦
              rw (e, step, delete_by_source)
                (u.0, delete_where-Entries (IsStored dim) _ s.documents s.documents u.1)
        ]
  step-IsUniform dim s (clear_call none) u = (u.0, tt)
  step-IsUniform dim s (clear_call (some namespace)) u =
      elim (Result-cases (normalize_namespace trim (some namespace) s.default_namespace)) [
        | inr (_, e) ↦ rw (e, step, clear) u
        | inl (ns, e) ↦
            rw (e, step, clear)
              (u.0, delete_where-Entries (IsStored dim) _ s.documents s.documents u.1)
      ]

  run-IsUniform :
      (dim : Option ℕ) (s : Store F trim) (cs : List Call)
      → IsUniform dim s
      → IsUniform dim (run s cs)
  unfolding run
  run-IsUniform dim s [] u = u
  run-IsUniform dim s (c ∷ cs) u = run-IsUniform dim (step s c) cs (step-IsUniform dim s c u)

  -- After any calls on a new store, also calls that throw, the configured dimension is unchanged,
  -- and each document stands under the key of its own namespace and id, with an embedding that is
  -- accepted for that dimension.
  pub reachable-IsUniform :
      (dim : Option JsNumber) (duplicates : DuplicateBehavior) (namespace : Option String)
      (cs : List Call) {s : Store F trim}
      → new_store F trim dim duplicates namespace ≡ ok s
      → IsUniform s.dimension (run s cs)
  unfolding new_store
  reachable-IsUniform dim duplicates namespace cs {s} h =
      let (checked, _, h₁) = >>=-eq-ok (check_dimension F trim dim) _ h in
      let (default, _, h₂) = >>=-eq-ok (normalize_namespace trim namespace "default") _ h₁ in
      run-IsUniform s.dimension s cs (
        refl,
        subst (λ (t : Store F trim). Entries (IsStored t.dimension) t.documents) (ok-injective h₂)
            tt,
      )
