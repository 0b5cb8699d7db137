-- ===== src/Recall/Batch.antt =====
-- What upsert of the in-memory recall store does: its checks, then its writes.
use mathlib.Core.Path.{subst}
use tekbreed_oss.Prelude.{
  ℕ, String, ◌≡◌, refl, sym, ap, ◌∙◌, Bool, true, false, ◌&&◌, Option, some, List, [], ◌∷◌, map,
  if◌then◌else◌, get_or, includes, length, eqb, Bool-cases, Option-cases, inl, inr, ◌⊎◌,
}
use tekbreed_oss.Prelude.Floats.{Floats}
use tekbreed_oss.Prelude.Result.{ok, throw, >>=-eq-ok, ok-injective, Result-cases}
use tekbreed_oss.JsMap
use tekbreed_oss.JsMap.Bulk.{set_all}
use tekbreed_oss.Recall.Validation.{
  Checked, RecallError, normalize_namespace, assert_namespace, validation,
  validate_recall_documents,
}
use tekbreed_oss.Recall.{
  Store, Document, Outcome, StoredDocument, is_error, key, check_batch, ensure_dimension, stored,
  write_batch, upsert, upsert_checked, expected_dimension,
}

-- The namespace that comes back is the one asked for, or else the fallback.
pub normalize_namespace-get_or :
    (trim : String → String) (namespace : Option String) (fallback : String) {ns : String}
    → normalize_namespace trim namespace fallback ≡ ok ns
    → ns ≡ get_or namespace fallback
unfolding normalize_namespace
normalize_namespace-get_or trim namespace fallback h =
    let (checked, a, r) = >>=-eq-ok (assert_namespace trim (get_or namespace fallback)) _ h in
    sym (ok-injective r)

-- Two guards that let through.
guards :
    (a b : Bool) (next : Checked (Unit {0}))
    → (if a then throw validation else if b then throw validation else next) ≡ ok tt
    → (next ≡ ok tt) × (a ≡ false) × (b ≡ false)
guards true b next h = cc
guards false true next h = cc
guards false false next h = (h, refl, refl)

module _ (F : Floats) (trim : String → String) where
  -- A document's key and what is stored under it.
  abbrev pub entry : Store F trim → String → Document F trim → String × StoredDocument F.Float
  entry s now d =
      let ns = get_or d.namespace s.default_namespace in (key ns d.id, stored F trim d ns now)

  abbrev pub entries :
      Store F trim → String → List (Document F trim) → List (String × StoredDocument F.Float)
  entries s now ds = map (entry s now) ds

  abbrev pub IsNamed : Store F trim → Document F trim → Type 0
  IsNamed s d =
      normalize_namespace trim d.namespace s.default_namespace
      ≡ ok (get_or d.namespace s.default_namespace)

  abbrev pub key_of : Store F trim → Document F trim → String
  key_of s d = key (get_or d.namespace s.default_namespace) d.id

  -- What a round of the checks has found out.
  pub check_batch-cons :
      (s : Store F trim) (seen : List String) (d : Document F trim) (ds : List (Document F trim))
      → check_batch F trim s seen (d ∷ ds) ≡ ok tt
      → IsNamed s d
        × (check_batch F trim s (key_of s d ∷ seen) ds ≡ ok tt)
        × ((includes seen (key_of s d) && is_error s.duplicates) ≡ false)
        × ((JsMap.has s.documents (key_of s d) && is_error s.duplicates) ≡ false)
  unfolding check_batch
  check_batch-cons s seen d ds h =
      let (ns, n, r) = >>=-eq-ok (normalize_namespace trim d.namespace s.default_namespace) _ h in
      let named = normalize_namespace-get_or trim d.namespace s.default_namespace n in
      let rest =
        subst
          (λ m.
            (check_batch F trim s (key m d.id ∷ seen) ds ≡ ok tt)
            × ((includes seen (key m d.id) && is_error s.duplicates) ≡ false)
            × ((JsMap.has s.documents (key m d.id) && is_error s.duplicates) ≡ false))
          named (guards _ _ _ r) in
      (n ∙ ap ok named, rest.0, rest.1, rest.2)

  -- A batch that has passed the checks is written whole.
  write_batch-set_all :
      (s s' : Store F trim) (seen : List String) (now : String) (ds : List (Document F trim))
      → check_batch F trim s seen ds ≡ ok tt
      → s'.default_namespace ≡ s.default_namespace
      → write_batch F trim s' now ds
        ≡ (record s' { documents = set_all s'.documents (entries s now ds) }, ok tt)
  unfolding write_batch set_all
  write_batch-set_all s s' seen now [] h e = refl
  write_batch-set_all s s' seen now (d ∷ ds) h e =
      let (named, rest, _, _) = check_batch-cons s seen d ds h in
      let named' =
        subst
          (λ f.
            normalize_namespace trim d.namespace f ≡ ok (get_or d.namespace s.default_namespace))
          (sym e) named in
      rw (named', write_batch)
        (write_batch-set_all s
          (record s' {
            documents =
                JsMap.set s'.documents (key_of s d)
                  (stored F trim d (get_or d.namespace s.default_namespace) now);
          })
          (key_of s d ∷ seen) now ds rest e)

  -- The two differ at most in the inferred dimension.
  abbrev pub Keeps : Store F trim → Store F trim → Type 0
  Keeps s t =
      (t.documents ≡ s.documents)
      × (t.default_namespace ≡ s.default_namespace)
      × (t.dimension ≡ s.dimension)
      × (t.duplicates ≡ s.duplicates)

  module _ (s : Store F trim) {s' : Store F trim} where
    Keeps-same :
        (t : Store F trim)
        → ◌≡◌ {A = Checked (Store F trim)} (ok t) (ok s')
        → Keeps s t
        → Keeps s s'
    Keeps-same t e k = subst (Keeps s) (ok-injective e) k

  ensure_dimension-Keeps :
      (s : Store F trim) (n : ℕ) {s' : Store F trim}
      → ensure_dimension F trim s n ≡ ok s'
      → Keeps s s'
  unfolding ensure_dimension
  ensure_dimension-Keeps s n {s'} h = elim (Option-cases s.dimension) [
    | inr (m, d) ↦ Keeps-same s s (rw (d, ensure_dimension) at h) (refl, refl, refl, refl)
    | inl d ↦ elim (Option-cases s.inferred_dimension) [
      | inl i ↦
          Keeps-same s (record s { inferred_dimension = some n }) (rw (d, i, ensure_dimension) at h)
            (refl, refl, refl, refl)
      | inr (m, i) ↦ elim (Bool-cases (eqb m n)) [
        | inl e ↦ Keeps-same s s (rw (d, i, e, ensure_dimension) at h) (refl, refl, refl, refl)
        | inr e ↦ cc (rw (d, i, e, ensure_dimension) at h)
      ]
    ]
  ]

  abbrev with_documents :
      Store F trim
      → List (String × StoredDocument F.Float)
      → JsMap.JsMap (StoredDocument F.Float)
      → Outcome F trim
  with_documents s' l m = (record s' { documents = set_all m l }, ok tt)

  -- An upsert throws and changes nothing, or has passed the checks and written every document.
  pub upsert-cases :
      (s : Store F trim) (now : String) (ds : List (Document F trim))
      → ((e : RecallError) × (upsert F trim s now ds ≡ (s, throw e)))
        ⊎ ((s' : Store F trim) × (upsert F trim s now ds
              ≡ (record s' { documents = set_all s.documents (entries s now ds) }, ok tt))
            × Keeps s s'
            × (check_batch F trim s [] ds ≡ ok tt)
            × (validate_recall_documents F trim ds (expected_dimension s) ≡ ok tt))
  unfolding upsert upsert_checked set_all check_batch validate_recall_documents
  upsert-cases s now [] = inr (s, refl, (refl, refl, refl, refl), refl, refl)
  upsert-cases s now (d ∷ ds) =
      elim (Result-cases (validate_recall_documents F trim (d ∷ ds) (expected_dimension s))) [
        | inr (e, v) ↦ inl (e, rw (v, upsert, upsert_checked) refl)
        | inl (_, v) ↦ elim (Result-cases (check_batch F trim s [] (d ∷ ds))) [
          | inr (e, c) ↦ inl (e, rw (v, c, upsert, upsert_checked) refl)
          | inl (_, c) ↦ elim (Result-cases (ensure_dimension F trim s (length d.embedding))) [
            | inr (e, n) ↦ inl (e, rw (v, c, n, upsert, upsert_checked) refl)
            | inl (s', n) ↦
                let keeps = ensure_dimension-Keeps s (length d.embedding) n in
                inr (
                  s',
                  rw (v, c, n, upsert, upsert_checked)
                      (write_batch-set_all s s' [] now (d ∷ ds) c keeps.1
                        ∙ ap (with_documents s' (entries s now (d ∷ ds))) keeps.0),
                  keeps,
                  c,
                  v,
                )
          ]
        ]
      ]
