-- ===== src/Recall/Ranking.antt =====
-- query of the in-memory recall store returns the best of its candidates.
use mathlib.Core.Path.{subst}
use mathlib.Core.List.{Memᴰ}
use tekbreed_oss.Prelude.{
  ℕ, String, ◌≡◌, sym, ap, ◌∙◌, Bool, false, not, ◌||◌, Option, List, [], ◌∷◌, arith, ◌==◌, eq_iff,
  get_or, length, All, All-map, true, Bool-cases, inl, inr, ◌⊎◌,
}
use tekbreed_oss.Prelude.Floats.{Floats}
use tekbreed_oss.Prelude.Json.{Json, Fields}
use tekbreed_oss.Prelude.Result.{ok, >>=-eq-ok, ok-injective}
use tekbreed_oss.JsMap
use tekbreed_oss.Recall.Filter.{matches_recall_filter}
use tekbreed_oss.Recall.Scoring.{RecallResult, cosine_similarity, sort_recall_scores, result_before}
use tekbreed_oss.Recall.{Store, StoredDocument, expected_dimension}
use tekbreed_oss.Recall.Query.{
  RecallQuery, query, validate_recall_query, candidates, scored, result_of,
}
use tekbreed_oss.Recall.Answers.{IsCandidate, query-parts, candidates-IsCandidate, scored-Shows}
use tekbreed_oss.Recall.Sorting.{IsOrder, IsRanked-sort_by, sort_by-Memᴰ, take-IsRanked}

-- Number.isFinite of a score, and of the score of a result.
abbrev pub IsFinite : (F : Floats) → F.Float → Type 0
IsFinite F x = F.finite x ≡ true

abbrev HasFinite : (F : Floats) → RecallResult F.Float → Type 0
HasFinite F r = IsFinite F r.score

abbrev pub Anything : String → Type 0
Anything s = Unit {0}

-- The scores first, and the ids between equal scores.
IsOrder-result_before :
    (F : Floats) (locale_lt : String → String → Bool)
    → IsOrder (IsFinite F) F.lt
    → ((a b : F.Float) → IsFinite F a → IsFinite F b → F.eq a b ≡ not (F.lt a b || F.lt b a))
    → IsOrder Anything locale_lt
    → IsOrder (HasFinite F) (result_before F locale_lt)
unfolding result_before
IsOrder-result_before F locale_lt o eq l = record {
  asymmetric = λ a b p q h. ground (
    arith,
    eq a.score b.score p q,
    eq b.score a.score q p,
    o.asymmetric a.score b.score p q,
    o.asymmetric b.score a.score q p,
    l.asymmetric a.id b.id tt tt,
  );
  tied = λ a b c p q r h k. ground (
    arith,
    eq a.score b.score p q,
    eq b.score a.score q p,
    eq b.score c.score q r,
    eq c.score b.score r q,
    eq a.score c.score p r,
    eq c.score a.score r p,
    o.tied c.score b.score a.score r q p,
    o.tied a.score b.score c.score p q r,
    o.tied a.score c.score b.score p r q,
    o.tied b.score a.score c.score q p r,
    l.tied a.id b.id c.id tt tt tt,
  );
}

module _ (F : Floats) (trim : String → String) (stringify : Json → String)
    (sort_keys : List String → List String) (locale_lt : String → String → Bool) where
  candidates-complete :
      (namespace : String) (conditions : Option Fields) (ds found : List (StoredDocument F.Float))
      {d : StoredDocument F.Float}
      → candidates F trim stringify sort_keys locale_lt namespace conditions ds ≡ ok found
      → Memᴰ d ds
      → IsCandidate F trim stringify sort_keys locale_lt namespace conditions d
      → Memᴰ d found
  unfolding candidates
  candidates-complete namespace conditions [] found h m is = elim m [ ]
  candidates-complete namespace conditions (x ∷ ds) found h (Memᴰ.head e) is =
      let is' =
        subst (IsCandidate F trim stringify sort_keys locale_lt namespace conditions) e is in
      let same = (eq_iff x.namespace namespace).1 is'.0 in
      let (others, _, h₁) =
        >>=-eq-ok (candidates F trim stringify sort_keys locale_lt namespace conditions ds) _
          (rw (same, is'.1, candidates) at h) in
      subst (Memᴰ _) (ok-injective h₁) (Memᴰ.head e)
  candidates-complete namespace conditions (x ∷ ds) found h (Memᴰ.tail m) is =
      elim (Bool-cases (x.namespace == namespace)) [
        | inr other ↦
            candidates-complete namespace conditions ds found (rw (other, candidates) at h) m is
        | inl same ↦
            let (matched, _, h₁) =
              >>=-eq-ok (matches_recall_filter stringify sort_keys x.metadata conditions) _
                (rw (same, candidates) at h) in
            let (others, o, h₂) =
              >>=-eq-ok (candidates F trim stringify sort_keys locale_lt namespace conditions ds) _
                h₁ in
            let rest = candidates-complete namespace conditions ds others o m is in
            elim (Bool-cases matched) [
              | inl y ↦ subst (Memᴰ _) (ok-injective (rw y at h₂)) (Memᴰ.tail rest)
              | inr y ↦ subst (Memᴰ _) (ok-injective (rw y at h₂)) rest
            ]
      ]

  scored-complete :
      (q : RecallQuery F.Float) (ds : List (StoredDocument F.Float))
      (results : List (RecallResult F.Float)) (score : F.Float) {d : StoredDocument F.Float}
      → Memᴰ d ds
      → scored F trim stringify sort_keys locale_lt q ds ≡ ok results
      → cosine_similarity F q.embedding d.embedding ≡ ok score
      → Memᴰ (result_of F trim stringify sort_keys locale_lt q d score) results
  unfolding scored
  scored-complete q [] results score m h c = elim m [ ]
  scored-complete q (x ∷ ds) results score (Memᴰ.head e) h c =
      let (first, c', h₁) = >>=-eq-ok (cosine_similarity F q.embedding x.embedding) _ h in
      let (others, _, h₂) = >>=-eq-ok (scored F trim stringify sort_keys locale_lt q ds) _ h₁ in
      let same =
        (sym (ap (λ (y : StoredDocument F.Float). cosine_similarity F q.embedding y.embedding) e)
          ∙ c) in
      subst (Memᴰ _) (ok-injective h₂) (
        Memᴰ.head (
          ap (λ y. result_of F trim stringify sort_keys locale_lt q y score) e
          ∙ ap (result_of F trim stringify sort_keys locale_lt q x) (ok-injective (sym same ∙ c'))))
  scored-complete q (x ∷ ds) results score (Memᴰ.tail k) h c =
      let (first, _, h₁) = >>=-eq-ok (cosine_similarity F q.embedding x.embedding) _ h in
      let (others, o, h₂) = >>=-eq-ok (scored F trim stringify sort_keys locale_lt q ds) _ h₁ in
      subst (Memᴰ _) (ok-injective h₂) (Memᴰ.tail (scored-complete q ds others score k o c))

  -- If the comparison of ids is a strict order with transitive ties, so is that of scores among
  -- finite numbers, which are equal exactly when neither is less, and the score of every stored
  -- document of the queried namespace that matches the filter is finite where it has one, then
  -- for each stored document of the queried namespace that matches the filter and has a score, a
  -- query that is valid and returns either shows its result or gives exactly topK results, before
  -- none of which it ranks.
  pub query_top :
      (s : Store F trim) (q : RecallQuery F.Float) (d : StoredDocument F.Float) (score : F.Float)
      {k : ℕ} {results : List (RecallResult F.Float)}
      → IsOrder (IsFinite F) F.lt
      → ((a b : F.Float) → IsFinite F a → IsFinite F b → F.eq a b ≡ not (F.lt a b || F.lt b a))
      → IsOrder Anything locale_lt
      → ((x : StoredDocument F.Float) (y : F.Float)
          → Memᴰ x (JsMap.values s.documents)
          → IsCandidate F trim stringify sort_keys locale_lt
              (get_or q.namespace s.default_namespace)
              q.filter
              x
          → cosine_similarity F q.embedding x.embedding ≡ ok y
          → IsFinite F y)
      → validate_recall_query F trim q (expected_dimension s) ≡ ok k
      → query F trim stringify sort_keys locale_lt s q ≡ ok results
      → Memᴰ d (JsMap.values s.documents)
      → IsCandidate F trim stringify sort_keys locale_lt
          (get_or q.namespace s.default_namespace)
          q.filter
          d
      → cosine_similarity F q.embedding d.embedding ≡ ok score
      → Memᴰ (result_of F trim stringify sort_keys locale_lt q d score) results
        ⊎ ((length results ≡ k)
            × All
                (λ (r : RecallResult F.Float).
                  result_before F locale_lt
                    (result_of F trim stringify sort_keys locale_lt q d score)
                    r
                  ≡ false)
                results)
  query_top s q d score {k} {results} o eq l all_finite v h m is c =
      let (ds, all, found, shown, e) = query-parts F trim stringify sort_keys locale_lt s q v h in
      let there =
        scored-complete q ds all score
          (candidates-complete (get_or q.namespace s.default_namespace) q.filter
            (JsMap.values s.documents) ds found m is)
          shown c in
      let found_is =
        candidates-IsCandidate F trim stringify sort_keys locale_lt
          (get_or q.namespace s.default_namespace) q.filter (JsMap.values s.documents) ds (λ x k. k)
          found in
      let shows = scored-Shows F trim stringify sort_keys locale_lt q _ ds all found_is shown in
      let finite : All (HasFinite F) all =
        All-map all (λ r (x, is_x, y, c', e'). rw e' (all_finite x y is_x.0 is_x.1 c')) shows in
      subst
        (λ rs.
          Memᴰ (result_of F trim stringify sort_keys locale_lt q d score) rs
          ⊎ ((length rs ≡ k)
              × All
                  (λ (r : RecallResult F.Float).
                    result_before F locale_lt
                      (result_of F trim stringify sort_keys locale_lt q d score) r
                    ≡ false)
                  rs))
        e
        (take-IsRanked (result_before F locale_lt) k (sort_recall_scores F locale_lt all)
          (IsRanked-sort_by (result_before F locale_lt) all
            (IsOrder-result_before F locale_lt o eq l) finite)
          (sort_by-Memᴰ (result_before F locale_lt) all there))
