-- ===== src/Recall/Returns.antt =====
-- A query of the in-memory recall store returns where the dimension is configured.
use mathlib.Core.Path.{subst}
use tekbreed_oss.Prelude.{
  ℕ, String, ◌≡◌, refl, sym, ap, Bool, true, Option, none, some, List, [], ◌∷◌, arith, ◌==◌, eqb,
  length, take, All, Bool-cases, inl, inr,
}
use tekbreed_oss.Prelude.Floats.{Floats}
use tekbreed_oss.Prelude.Json.{Json, Fields}
use tekbreed_oss.Prelude.Number.{JsNumber}
use tekbreed_oss.Prelude.Result.{ok, >>=-eq-ok, ok-injective}
use tekbreed_oss.JsMap
use tekbreed_oss.JsMap.{JsMap}
use tekbreed_oss.JsMap.Entries.{Entries}
use tekbreed_oss.Recall.Validation.{
  Checked, validate_embedding, normalize_namespace, validate_optional_namespace,
}
use tekbreed_oss.Recall.Filter.{matches_recall_filter, matches_entries}
use tekbreed_oss.Recall.Scoring.{
  RecallResult, cosine_similarity, sums, quotient, sort_recall_scores,
}
use tekbreed_oss.Recall.{Store, StoredDocument, DuplicateBehavior, new_store}
use tekbreed_oss.Recall.Query.{
  RecallQuery, query, validate_recall_query, validate_optional_filter, assert_positive_integer,
  candidates, scored, result_of,
}
use tekbreed_oss.Recall.History.{
  Call, run, IsStored, IsUniform, reachable-IsUniform, validate_embedding-ok,
}

module _ (F : Floats) (trim : String → String) (stringify : Json → String)
    (sort_keys : List String → List String) (locale_lt : String → String → Bool) where
  abbrev ask : Store F trim → RecallQuery F.Float → Checked (List (RecallResult F.Float))
  ask = query F trim stringify sort_keys locale_lt

  -- With a dimension configured, a document in order has a score.
  cosine_similarity-returns :
      (q : RecallQuery F.Float) (n : ℕ) (e : List F.Float)
      → validate_embedding F q.embedding (some n) ≡ ok tt
      → validate_embedding F e (some n) ≡ ok tt
      → (score : F.Float) × (cosine_similarity F q.embedding e ≡ ok score)
  unfolding cosine_similarity
  cosine_similarity-returns q n e a b =
      let (m, a') = validate_embedding-ok F q.embedding (some n) a in
      let (m', b') = validate_embedding-ok F e (some n) b in
      let same : eqb (length q.embedding) (length e) ≡ true = ground (arith, m, m') in
      (
        quotient F (sums F q.embedding e (F.of_nat 0, F.of_nat 0, F.of_nat 0)),
        rw (a', b', same, cosine_similarity) refl,
      )

  matches-returns :
      (metadata : Fields) (conditions : Option Fields)
      → validate_optional_filter F trim conditions ≡ ok tt
      → (matched : Bool) × (matches_recall_filter stringify sort_keys metadata conditions
          ≡ ok matched)
  unfolding matches_recall_filter
  matches-returns metadata none v = (true, refl)
  matches-returns metadata (some fs) v =
      (matches_entries stringify sort_keys metadata fs, rw (v, matches_recall_filter) refl)

  candidates-returns :
      (namespace : String) (conditions : Option Fields) (n : ℕ) (m : JsMap (StoredDocument F.Float))
      → validate_optional_filter F trim conditions ≡ ok tt
      → Entries (IsStored F trim (some n)) m
      → (ds : List (StoredDocument F.Float)) × (candidates F trim stringify sort_keys locale_lt
            namespace conditions
            (JsMap.values m)
          ≡ ok ds)
        × All (λ (d : StoredDocument F.Float). validate_embedding F d.embedding (some n) ≡ ok tt) ds
  unfolding candidates
  candidates-returns namespace conditions n [] v all = ([], refl, tt)
  candidates-returns namespace conditions n ((k, d) ∷ m) v all =
      let (ds, c, accepted) = candidates-returns namespace conditions n m v all.1 in
      elim (Bool-cases (d.namespace == namespace)) [
        | inr other ↦ (ds, rw (other, candidates) c, accepted)
        | inl same ↦
            let (matched, e) = matches-returns d.metadata conditions v in
            elim (Bool-cases matched) [
              | inl y ↦ (d ∷ ds, rw (same, e, c, y, candidates) refl, (all.0.1, accepted))
              | inr y ↦ (ds, rw (same, e, c, y, candidates) refl, accepted)
            ]
      ]

  scored-returns :
      (q : RecallQuery F.Float) (n : ℕ) (ds : List (StoredDocument F.Float))
      → validate_embedding F q.embedding (some n) ≡ ok tt
      → All (λ (d : StoredDocument F.Float). validate_embedding F d.embedding (some n) ≡ ok tt) ds
      → (results : List (RecallResult F.Float)) × (scored F trim stringify sort_keys locale_lt q ds
          ≡ ok results)
  unfolding scored
  scored-returns q n [] a all = ([], refl)
  scored-returns q n (d ∷ ds) a all =
      let (score, c) = cosine_similarity-returns q n d.embedding a all.0 in
      let (results, r) = scored-returns q n ds a all.1 in
      (result_of F trim stringify sort_keys locale_lt q d score ∷ results, rw (c, r, scored) refl)

  new_store-dimension :
      (n : ℕ) (duplicates : DuplicateBehavior) (namespace : Option String) {s : Store F trim}
      → new_store F trim (some (JsNumber.pos n)) duplicates namespace ≡ ok s
      → s.dimension ≡ some n
  unfolding new_store
  new_store-dimension n duplicates namespace {s} h = elim (Bool-cases (eqb n 0)) [
    | inl z ↦ cc (rw z at h)
    | inr z ↦
        let (default, _, h₁) =
          >>=-eq-ok (normalize_namespace trim namespace "default") _ (rw z at h) in
        ap (λ (t : Store F trim). t.dimension) (sym (ok-injective h₁))
  ]

  -- With a dimension that the store and the query share, a query returns.
  query-returns :
      (n : ℕ) (q : RecallQuery F.Float) (s : Store F trim) {k : ℕ} {ns : String}
      → IsUniform F trim (some n) s
      → validate_recall_query F trim q (some n) ≡ ok k
      → normalize_namespace trim q.namespace s.default_namespace ≡ ok ns
      → (results : List (RecallResult F.Float)) × (ask s q ≡ ok results)
  unfolding query validate_recall_query
  query-returns n q s {k} {ns} (dim, stored) v name =
      let (_, a, v₁) = >>=-eq-ok (validate_embedding F q.embedding (some n)) _ v in
      let (_, p, v₂) = >>=-eq-ok (assert_positive_integer F trim q.top_k) _ v₁ in
      let (_, o, v₃) = >>=-eq-ok (validate_optional_namespace trim q.namespace) _ v₂ in
      let (_, f, _) = >>=-eq-ok (validate_optional_filter F trim q.filter) _ v₃ in
      let (ds, c, accepted) = candidates-returns ns q.filter n s.documents f stored in
      let (results, r) = scored-returns q n ds a accepted in
      (take k (sort_recall_scores F locale_lt results), rw (dim, v, name, c, r, query) refl)

  -- On a store with a configured dimension, after any calls, a query that is valid for that
  -- dimension and has a valid namespace returns: no stored document makes the filter or the score
  -- throw.
  pub query_returns :
      (n : ℕ) (duplicates : DuplicateBehavior) (namespace : Option String) (cs : List (Call F trim))
      (q : RecallQuery F.Float) {s : Store F trim} {k : ℕ} {ns : String}
      → new_store F trim (some (JsNumber.pos n)) duplicates namespace ≡ ok s
      → validate_recall_query F trim q (some n) ≡ ok k
      → normalize_namespace trim q.namespace (run F trim s cs).default_namespace ≡ ok ns
      → (results : List (RecallResult F.Float)) × (ask (run F trim s cs) q ≡ ok results)
  query_returns n duplicates namespace cs q {s} c v name =
      let uniform = reachable-IsUniform F trim (some (JsNumber.pos n)) duplicates namespace cs c in
      query-returns n q (run F trim s cs)
        (subst (λ dim. IsUniform F trim dim (run F trim s cs))
          (new_store-dimension n duplicates namespace c) uniform)
        v name
