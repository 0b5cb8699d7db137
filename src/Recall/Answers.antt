-- ===== src/Recall/Answers.antt =====
-- What query of the in-memory recall store answers.
use mathlib.Core.Path.{subst}
use mathlib.Core.List.{Memᴰ}
use tekbreed_oss.Prelude.{
  ℕ, zero, suc, ◌≤◌, String, ◌≡◌, refl, sym, ap, ◌∙◌, Bool, true, Option, List, [], ◌∷◌, arith,
  ◌==◌, eq_iff, get_or, length, take, All, Bool-cases, inl, inr,
}
use tekbreed_oss.Prelude.Floats.{Floats}
use tekbreed_oss.Prelude.Json.{Json, Fields}
use tekbreed_oss.Prelude.Result.{ok, >>=-eq-ok, ok-injective}
use tekbreed_oss.JsMap
use tekbreed_oss.JsMap.{JsMap}
use tekbreed_oss.Recall.Validation.{Checked, normalize_namespace}
use tekbreed_oss.Recall.Filter.{matches_recall_filter}
use tekbreed_oss.Recall.Scoring.{RecallResult, cosine_similarity, sort_recall_scores, result_before}
use tekbreed_oss.Recall.{Store, StoredDocument, expected_dimension}
use tekbreed_oss.Recall.Query.{
  RecallQuery, query, validate_recall_query, candidates, scored, result_of,
}
use tekbreed_oss.Recall.Batch.{normalize_namespace-get_or}
use tekbreed_oss.Recall.Sorting.{All-sort_by, All-take}

length-take : {A : Type 0} (n : ℕ) (xs : List A) → length (take n xs) ≤ n
length-take zero xs = omega arith
length-take (suc n) [] = omega arith
length-take (suc n) (x ∷ xs) = omega (arith, length-take n xs)

module _ (F : Floats) (trim : String → String) (stringify : Json → String)
    (sort_keys : List String → List String) (locale_lt : String → String → Bool) where
  -- The document is of the namespace and passes the filter.
  abbrev pub IsCandidate : String → Option Fields → StoredDocument F.Float → Type 0
  IsCandidate namespace conditions d =
      (d.namespace ≡ namespace)
      × (matches_recall_filter stringify sort_keys d.metadata conditions ≡ ok true)

  abbrev ask : Store F trim → RecallQuery F.Float → Checked (List (RecallResult F.Float))
  ask = query F trim stringify sort_keys locale_lt

  pub candidates-IsCandidate :
      (namespace : String) (conditions : Option Fields) (ds found : List (StoredDocument F.Float))
      {all : List (StoredDocument F.Float)}
      → ((d : StoredDocument F.Float) → Memᴰ d ds → Memᴰ d all)
      → candidates F trim stringify sort_keys locale_lt namespace conditions ds ≡ ok found
      → All (λ (d : StoredDocument F.Float). Memᴰ d all × IsCandidate namespace conditions d) found
  unfolding candidates
  candidates-IsCandidate namespace conditions [] found sub h = subst (All _) (ok-injective h) tt
  candidates-IsCandidate namespace conditions (d ∷ ds) found sub h =
      elim (Bool-cases (d.namespace == namespace)) [
        | inr other ↦
            candidates-IsCandidate namespace conditions ds found (λ x m. sub x (Memᴰ.tail m))
              (rw (other, candidates) at h)
        | inl same ↦
            let (matched, m, h₁) =
              >>=-eq-ok (matches_recall_filter stringify sort_keys d.metadata conditions) _
                (rw (same, candidates) at h) in
            let (others, o, h₂) =
              >>=-eq-ok (candidates F trim stringify sort_keys locale_lt namespace conditions ds) _
                h₁ in
            let rest =
              candidates-IsCandidate namespace conditions ds others (λ x k. sub x (Memᴰ.tail k))
                o in
            elim (Bool-cases matched) [
              | inl y ↦ subst (All _) (ok-injective (rw y at h₂)) (
                (sub d (Memᴰ.head refl), ((eq_iff d.namespace namespace).0 same, m ∙ ap ok y)),
                rest,
              )
              | inr y ↦ subst (All _) (ok-injective (rw y at h₂)) rest
            ]
      ]

  -- The result shows a document for which this holds, with its score.
  abbrev pub Shows :
      RecallQuery F.Float → (StoredDocument F.Float → Type 0) → RecallResult F.Float → Type 0
  Shows q P r =
      (d : StoredDocument F.Float) × P d
      × (score : F.Float) × (cosine_similarity F q.embedding d.embedding ≡ ok score)
      × (r ≡ result_of F trim stringify sort_keys locale_lt q d score)

  pub scored-Shows :
      (q : RecallQuery F.Float) (P : StoredDocument F.Float → Type 0)
      (ds : List (StoredDocument F.Float)) (results : List (RecallResult F.Float))
      → All P ds
      → scored F trim stringify sort_keys locale_lt q ds ≡ ok results
      → All (Shows q P) results
  unfolding scored
  scored-Shows q P [] results all h = subst (All _) (ok-injective h) tt
  scored-Shows q P (d ∷ ds) results all h =
      let (score, c, h₁) = >>=-eq-ok (cosine_similarity F q.embedding d.embedding) _ h in
      let (others, o, h₂) = >>=-eq-ok (scored F trim stringify sort_keys locale_lt q ds) _ h₁ in
      subst (All _) (ok-injective h₂)
        ((d, all.0, score, c, refl), scored-Shows q P ds others all.1 o)

  -- A query that returns has gone through its four parts.
  pub query-parts :
      (s : Store F trim) (q : RecallQuery F.Float) {k : ℕ} {results : List (RecallResult F.Float)}
      → validate_recall_query F trim q (expected_dimension s) ≡ ok k
      → ask s q ≡ ok results
      → (ds : List (StoredDocument F.Float)) × (all : List (RecallResult F.Float)) × (candidates F
            trim stringify sort_keys locale_lt
            (get_or q.namespace s.default_namespace)
            q.filter
            (JsMap.values s.documents)
          ≡ ok ds)
        × (scored F trim stringify sort_keys locale_lt q ds ≡ ok all)
        × (take k (sort_recall_scores F locale_lt all) ≡ results)
  unfolding query
  query-parts s q {k} {results} v h =
      let (top_k, v', h₁) = >>=-eq-ok (validate_recall_query F trim q (expected_dimension s)) _ h in
      let (ns, n, h₂) = >>=-eq-ok (normalize_namespace trim q.namespace s.default_namespace) _ h₁ in
      let (ds, c, h₃) =
        >>=-eq-ok
          (candidates F trim stringify sort_keys locale_lt ns q.filter (JsMap.values s.documents)) _
          h₂ in
      let (all, r, h₄) = >>=-eq-ok (scored F trim stringify sort_keys locale_lt q ds) _ h₃ in
      let same = ok-injective (sym v' ∙ v) in
      (
        ds,
        all,
        subst
            (λ m.
              candidates F trim stringify sort_keys locale_lt m q.filter (JsMap.values s.documents)
              ≡ ok ds)
            (normalize_namespace-get_or trim q.namespace s.default_namespace n) c,
        r,
        subst (λ j. take j (sort_recall_scores F locale_lt all) ≡ results) same (ok-injective h₄),
      )

  -- A query that is valid and returns gives at most topK results; each shows a stored document of
  -- the queried namespace that matches the filter, with the cosine similarity of its embedding as
  -- the score.
  pub query_sound :
      (s : Store F trim) (q : RecallQuery F.Float) {k : ℕ} {results : List (RecallResult F.Float)}
      → validate_recall_query F trim q (expected_dimension s) ≡ ok k
      → ask s q ≡ ok results
      → (length results ≤ k)
        × All
            (Shows q (λ (d : StoredDocument F.Float).
              Memᴰ d (JsMap.values s.documents)
              × IsCandidate (get_or q.namespace s.default_namespace) q.filter d))
            results
  query_sound s q {k} v h =
      let (ds, all, c, r, e) = query-parts s q v h in
      let found =
        candidates-IsCandidate (get_or q.namespace s.default_namespace) q.filter
          (JsMap.values s.documents) ds (λ x m. m) c in
      let shown = scored-Shows q _ ds all found r in
      subst
        (λ rs.
          (length rs ≤ k)
          × All
              (Shows q (λ (d : StoredDocument F.Float).
                Memᴰ d (JsMap.values s.documents)
                × IsCandidate (get_or q.namespace s.default_namespace) q.filter d))
              rs)
        e
        (
          length-take k (sort_recall_scores F locale_lt all),
          All-take (result_before F locale_lt) (Shows q _) k _
              (All-sort_by (result_before F locale_lt) (Shows q _) all shown),
        )
