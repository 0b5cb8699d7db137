-- ===== src/Recall/Query.antt =====
-- query of the in-memory recall store, and validateRecallQuery of recall/validation/assertions.ts.
use tekbreed_oss.Prelude.{
  ℕ, String, Bool, false, not, Option, none, some, List, [], ◌∷◌, ◌==◌, eqb, if◌then◌else◌, take,
}
use tekbreed_oss.Prelude.Floats.{Floats}
use tekbreed_oss.Prelude.Json.{Json, Fields}
use tekbreed_oss.Prelude.Number.{JsNumber, pos}
use tekbreed_oss.Prelude.Result.{ok, throw, ◌>>=◌, ◌>>◌}
use tekbreed_oss.JsMap
use tekbreed_oss.JsMap.{JsMap}
use tekbreed_oss.Recall.Validation.{
  Checked, validation, normalize_namespace, validate_embedding, validate_optional_namespace,
}
use tekbreed_oss.Recall.Conditions.{validate_recall_filter}
use tekbreed_oss.Recall.Filter.{matches_recall_filter}
use tekbreed_oss.Recall.Scoring.{RecallResult, cosine_similarity, sort_recall_scores}
use tekbreed_oss.Recall.{Store, StoredDocument, expected_dimension}

pub record RecallQuery (Float : Type 0) : Type 0 where
  pub embedding : List Float
  pub top_k : JsNumber
  pub filter : Option Fields
  pub namespace : Option String
  pub include_text : Option Bool
  pub include_metadata : Option Bool

module _ (F : Floats) (trim : String → String) where
  -- assertPositiveInteger
  abbrev pub assert_positive_integer : JsNumber → Checked ℕ
  assert_positive_integer (pos n) = if eqb n 0 then throw validation else ok n
  assert_positive_integer _ = throw validation

  abbrev pub validate_optional_filter : Option Fields → Checked (Unit {0})
  validate_optional_filter none = ok tt
  validate_optional_filter (some fs) = validate_recall_filter fs

  -- validateRecallQuery; the number of results asked for
  unfoldable pub validate_recall_query : RecallQuery F.Float → Option ℕ → Checked ℕ
  validate_recall_query q expected = do
    validate_embedding F q.embedding expected
    n ← assert_positive_integer q.top_k
    validate_optional_namespace trim q.namespace
    validate_optional_filter q.filter
    ok n

  module _ (stringify : Json → String) (sort_keys : List String → List String)
      (locale_lt : String → String → Bool) where
    -- `validated.includeText !== false`, and the value in a result
    abbrev shown : Option Bool → {A : Type 0} → A → Option A
    shown (some false) value = none
    shown _ value = some value

    abbrev pub result_of :
        RecallQuery F.Float → StoredDocument F.Float → F.Float → RecallResult F.Float
    result_of q d score = record {
      id = d.id;
      score = score;
      text = shown q.include_text d.text;
      metadata = shown q.include_metadata d.metadata;
      namespace = d.namespace;
    }

    -- query: the filter on the stored documents
    unfoldable pub candidates :
        String
        → Option Fields
        → List (StoredDocument F.Float)
        → Checked (List (StoredDocument F.Float))
    candidates namespace conditions [] = ok []
    candidates namespace conditions (d ∷ ds) =
        let rest = candidates namespace conditions ds in
        if not (d.namespace == namespace) then rest else (do
          matched ← matches_recall_filter stringify sort_keys d.metadata conditions
          others ← rest
          ok (if matched then d ∷ others else others))

    -- query: the scores
    unfoldable pub scored :
        RecallQuery F.Float → List (StoredDocument F.Float) → Checked (List (RecallResult F.Float))
    scored q [] = ok []
    scored q (d ∷ ds) = do
      score ← cosine_similarity F q.embedding d.embedding
      others ← scored q ds
      ok (result_of q d score ∷ others)

    -- query
    unfoldable pub query :
        Store F trim → RecallQuery F.Float → Checked (List (RecallResult F.Float))
    query s q = do
      top_k ← validate_recall_query q (expected_dimension s)
      namespace ← normalize_namespace trim q.namespace s.default_namespace
      ds ← candidates namespace q.filter (JsMap.values s.documents)
      results ← scored q ds
      ok (take top_k (sort_recall_scores F locale_lt results))
