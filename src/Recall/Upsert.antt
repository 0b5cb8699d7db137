-- ===== src/Recall/Upsert.antt =====
-- upsert of the in-memory recall store is all or nothing, and what it stores.
use mathlib.Core.Path.{subst}
use tekbreed_oss.Prelude.{
  String, ◌≡◌, refl, ap, ◌∙◌, true, false, ◌&&◌, ◌||◌, none, some, List, [], ◌∷◌, arith, ◌==◌,
  eq_iff, eq_refl, includes, All, All-map, Bool-cases, inl, inr, ◌⊎◌,
}
use tekbreed_oss.Prelude.Floats.{Floats}
use tekbreed_oss.Prelude.Result.{ok, throw}
use tekbreed_oss.JsMap
use tekbreed_oss.JsMap.Bulk.{set_all, last_of, get-set_all}
use tekbreed_oss.Recall.Validation.{RecallError}
use tekbreed_oss.Recall.{
  Store, Document, Outcome, StoredDocument, is_error, check_batch, upsert, DuplicateBehavior,
}
use tekbreed_oss.Recall.Batch.{entry, entries, key_of, check_batch-cons, upsert-cases}

module _ (F : Floats) (trim : String → String) where
  -- With no duplicates let through, no key of the batch is stored, or has come up before.
  has-check_batch :
      (s : Store F trim) (seen : List String) (now : String) (ds : List (Document F trim))
      (k : String)
      → is_error s.duplicates ≡ true
      → check_batch F trim s seen ds ≡ ok tt
      → (includes seen k || JsMap.has s.documents k) ≡ true
      → last_of (entries F trim s now ds) k ≡ none
  unfolding last_of includes
  has-check_batch s seen now [] k e h old = refl
  has-check_batch s seen now (d ∷ ds) k e h old =
      let (_, rest, fresh, absent) = check_batch-cons F trim s seen d ds h in
      let later = has-check_batch s (key_of F trim s d ∷ seen) now ds k e rest (ground arith) in
      elim (Bool-cases (key_of F trim s d == k)) [
        | inl same ↦
            let back =
              subst
                (λ j.
                  ((includes seen j && is_error s.duplicates) ≡ false)
                  × ((JsMap.has s.documents j && is_error s.duplicates) ≡ false))
                ((eq_iff (key_of F trim s d) k).0 same) (fresh, absent) in
            ground (arith, back.0, back.1)
        | inr other ↦ rw (later, other, last_of) refl
      ]

  last_of-entries :
      (s : Store F trim) (seen : List String) (now : String) (ds : List (Document F trim))
      → is_error s.duplicates ≡ true
      → check_batch F trim s seen ds ≡ ok tt
      → All
          (λ (d : Document F trim).
            last_of (entries F trim s now ds) (key_of F trim s d) ≡ some (entry F trim s now d).1)
          ds
  unfolding last_of includes
  last_of-entries s seen now [] e h = tt
  last_of-entries s seen now (d ∷ ds) e h =
      let (_, rest, _, _) = check_batch-cons F trim s seen d ds h in
      let later =
        has-check_batch s (key_of F trim s d ∷ seen) now ds (key_of F trim s d) e rest
          (rw (eq_refl (key_of F trim s d)) refl) in
      (
        rw (later, eq_refl (key_of F trim s d), last_of) refl,
        All-map ds
            (λ d'
                (l : last_of (entries F trim s now ds) (key_of F trim s d')
                  ≡ some (entry F trim s now d').1).
              rw (l, last_of) refl)
            (last_of-entries s (key_of F trim s d ∷ seen) now ds e rest),
      )

  -- `upsert` either throws and leaves the store as it was, or returns and has set every document
  -- of the batch, in order, under the key of its namespace and id.
  pub upsert_atomic :
      (s : Store F trim) (now : String) (ds : List (Document F trim))
      → ((e : RecallError) × (upsert F trim s now ds ≡ (s, throw e)))
        ⊎ (((upsert F trim s now ds).1 ≡ ok tt)
            × ((upsert F trim s now ds).0.documents
                ≡ set_all s.documents (entries F trim s now ds)))
  upsert_atomic s now ds = elim (upsert-cases F trim s now ds) [
    | inl thrown ↦ inl thrown
    | inr (s', e, _, _, _) ↦
        inr (ap (λ (o : Outcome F trim). o.1) e, ap (λ (o : Outcome F trim). o.0.documents) e)
  ]

  -- Where duplicate ids are an error, a document stored under a key is still stored under it,
  -- unchanged, after any `upsert`, whether it returns or throws.
  pub upsert_keeps :
      (s : Store F trim) (now : String) (ds : List (Document F trim)) (k : String)
      {d : StoredDocument F.Float}
      → s.duplicates ≡ DuplicateBehavior.error
      → JsMap.get s.documents k ≡ some d
      → JsMap.get (upsert F trim s now ds).0.documents k ≡ some d
  unfolding includes
  upsert_keeps s now ds k e h = elim (upsert-cases F trim s now ds) [
    | inl (_, thrown) ↦ rw thrown h
    | inr (s', u, _, c, _) ↦
        let absent = has-check_batch s [] now ds k (ap is_error e) c (rw h refl) in
        rw u (get-set_all s.documents (entries F trim s now ds) k ∙ rw absent h)
  ]

  -- Where duplicate ids are an error and `upsert` returns, each document of the batch is stored
  -- under its key, with its own id, text, embedding and metadata.
  pub upsert_stores :
      (s : Store F trim) (now : String) (ds : List (Document F trim))
      → s.duplicates ≡ DuplicateBehavior.error
      → (upsert F trim s now ds).1 ≡ ok tt
      → All
          (λ (d : Document F trim).
            JsMap.get (upsert F trim s now ds).0.documents (entry F trim s now d).0
            ≡ some (entry F trim s now d).1)
          ds
  upsert_stores s now ds e h = elim (upsert-cases F trim s now ds) [
    | inl (_, thrown) ↦ cc
    | inr (s', u, _, c, _) ↦
        All-map ds
          (λ d l.
            rw u
              (get-set_all s.documents (entries F trim s now ds) (key_of F trim s d) ∙ rw l refl))
          (last_of-entries s [] now ds (ap is_error e) c)
  ]
