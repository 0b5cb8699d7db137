-- ===== src/Recall/Tests.antt =====
-- The in-memory recall store on a few documents.
use mathlib.Core.List.{Memᴰ}
use tekbreed_oss.Prelude.{
  ℕ, String, ◌≡◌, refl, Bool, false, not, ◌||◌, none, some, List, [], ◌∷◌, All, ltb, eqb, arith,
  length, includes, ◌⊎◌, ◌≤◌,
}
use tekbreed_oss.Prelude.Codes.{is_alphanumeric, contains, ends_with}
use tekbreed_oss.Prelude.Whole.{whole}
use tekbreed_oss.Prelude.Json.{Json, Fields}
use tekbreed_oss.Prelude.Number.{pos}
use tekbreed_oss.Prelude.Result.{ok, throw}
use tekbreed_oss.JsMap
use tekbreed_oss.JsMap.Bulk.{set_all}
use tekbreed_oss.Recall.Validation.{
  RecallError, RecallDocument, validate_embedding, validate_recall_documents,
  validate_recall_document, validate_metadata, normalize_namespace, assert_namespace,
  assert_safe_id, assert_non_empty_string, assert_safe_object_key, assert_json_fields,
}
use tekbreed_oss.Recall.Filter.{matches_recall_filter}
use tekbreed_oss.Recall.Scoring.{RecallResult, cosine_similarity, result_before, sort_by, insert}
use tekbreed_oss.Recall.{
  Store, StoredDocument, error, new_store, upsert, upsert_checked, check_batch, ensure_dimension,
  write_batch, clear, stored, delete_where,
}
use tekbreed_oss.Recall.Query.{
  RecallQuery, query, validate_recall_query, candidates, scored, result_of,
}
use tekbreed_oss.Recall.Batch.{entries}
use tekbreed_oss.Recall.Upsert.{upsert_atomic, upsert_keeps}
use tekbreed_oss.Recall.History.{Call, upsert_call, run, step, IsUniform, reachable-IsUniform}
use tekbreed_oss.Recall.Returns.{query_returns}
use tekbreed_oss.Recall.Answers.{query_sound, Shows, IsCandidate}
use tekbreed_oss.Recall.Ranking.{query_top, IsFinite, Anything}
use tekbreed_oss.Recall.Sorting.{IsOrder}

abbrev same : String → String
same s = s

abbrev json : Json → String
json v = ""

abbrev names : List String → List String
names keys = keys

abbrev no_order : String → String → Bool
no_order a b = false

abbrev metadata : Fields
metadata = Fields.field "projectId" (Json.text "p") (
    Fields.field "sourceType" (Json.text "note") (
      Fields.field "sourceId" (Json.text "s")
        (Fields.field "memoryType" (Json.text "notes") Fields.end)))

abbrev document : String → RecallDocument ℕ
document id = record {
  id = id;
  text = "text";
  embedding = 1 ∷ [];
  metadata = metadata;
  namespace = none;
}

abbrev empty : Store whole same
empty = record {
  documents = [];
  dimension = some 1;
  duplicates = error;
  default_namespace = "default";
  inferred_dimension = none;
}

abbrev in_store : String → StoredDocument ℕ
in_store id = stored whole same (document id) "default" "now"

abbrev one_document : Store whole same
one_document = record empty { documents = ("default:a", in_store "a") ∷ [] }

abbrev request : RecallQuery ℕ
request = record {
  embedding = 1 ∷ [];
  top_k = pos 1;
  filter = none;
  namespace = none;
  include_text = none;
  include_metadata = none;
}

empty_new : new_store whole same (some (pos 1)) error none ≡ ok empty
unfolding new_store normalize_namespace assert_namespace assert_non_empty_string contains ends_with
    is_alphanumeric
empty_new = refl

upsert_returns : (upsert whole same empty "now" (document "a" ∷ [])).1 ≡ ok tt
unfolding upsert upsert_checked validate_recall_documents validate_recall_document assert_safe_id
    assert_non_empty_string contains is_alphanumeric validate_embedding validate_metadata
    assert_json_fields assert_safe_object_key check_batch normalize_namespace assert_namespace
    ends_with includes JsMap.get ensure_dimension write_batch
upsert_returns = refl

upsert_atomic_example :
    ((e : RecallError) × (upsert whole same empty "now" (document "a" ∷ document "b" ∷ [])
        ≡ (empty, throw e)))
    ⊎ (((upsert whole same empty "now" (document "a" ∷ document "b" ∷ [])).1 ≡ ok tt)
        × ((upsert whole same empty "now" (document "a" ∷ document "b" ∷ [])).0.documents
            ≡ set_all empty.documents
                (entries whole same empty "now" (document "a" ∷ document "b" ∷ []))))
upsert_atomic_example = upsert_atomic whole same empty "now" (document "a" ∷ document "b" ∷ [])

a_stored : JsMap.get one_document.documents "default:a" ≡ some (in_store "a")
unfolding JsMap.get
a_stored = refl

upsert_keeps_example :
    JsMap.get (upsert whole same one_document "later" (document "a" ∷ [])).0.documents "default:a"
    ≡ some (in_store "a")
upsert_keeps_example =
    upsert_keeps whole same one_document "later" (document "a" ∷ []) "default:a" refl a_stored

abbrev calls : List (Call whole same)
calls = upsert_call "now" (document "a" ∷ []) ∷ []

reachable-IsUniform_example : IsUniform whole same (some 1) (run whole same empty calls)
reachable-IsUniform_example =
    reachable-IsUniform whole same (some (pos 1)) error none calls empty_new

request_valid : validate_recall_query whole same request (some 1) ≡ ok 1
unfolding validate_recall_query validate_embedding
request_valid = refl

abbrev best : List (RecallResult ℕ)
best = result_of whole same json names no_order request (in_store "a") 1 ∷ []

request_answered : query whole same json names no_order one_document request ≡ ok best
unfolding query validate_recall_query validate_embedding normalize_namespace assert_namespace
    assert_non_empty_string contains ends_with is_alphanumeric candidates matches_recall_filter
    scored cosine_similarity sort_by insert
request_answered = refl

query_sound_example :
    (length best ≤ 1)
    × All
        (Shows whole same json names no_order request (λ (d : StoredDocument ℕ).
          Memᴰ d (JsMap.values one_document.documents)
          × IsCandidate whole same json names no_order "default" none d))
        best
query_sound_example =
    query_sound whole same json names no_order one_document request request_valid request_answered

default_after :
    normalize_namespace same none (run whole same empty calls).default_namespace ≡ ok "default"
unfolding run step upsert upsert_checked validate_recall_documents validate_recall_document
    assert_safe_id assert_non_empty_string contains is_alphanumeric validate_embedding
    validate_metadata assert_json_fields assert_safe_object_key check_batch normalize_namespace
    assert_namespace ends_with includes JsMap.get ensure_dimension write_batch
default_after = refl

query_returns_example :
    (results : List (RecallResult ℕ)) × (query whole same json names no_order
        (run whole same empty calls)
        request
      ≡ ok results)
query_returns_example =
    query_returns whole same json names no_order 1 error none calls request empty_new request_valid
      default_after

abbrev two_calls : List (Call whole same)
two_calls =
    upsert_call "now" (document "a" ∷ record (document "b") { namespace = some "other" } ∷ []) ∷ []

default_valid :
    normalize_namespace same (some "default") (run whole same empty two_calls).default_namespace
    ≡ ok "default"
unfolding normalize_namespace assert_namespace assert_non_empty_string contains ends_with
    is_alphanumeric
default_valid = refl

b_left :
    JsMap.get
      (clear whole same (run whole same empty two_calls) (some "default")).0.documents
      "other:b"
    ≡ some (stored whole same (document "b") "other" "now")
unfolding clear delete_where run step upsert upsert_checked validate_recall_documents
    validate_recall_document assert_safe_id assert_non_empty_string contains is_alphanumeric
    validate_embedding validate_metadata assert_json_fields assert_safe_object_key check_batch
    normalize_namespace assert_namespace ends_with includes JsMap.get JsMap.set JsMap.delete
    ensure_dimension write_batch
b_left = refl

ltb-IsOrder : IsOrder (IsFinite whole) ltb
ltb-IsOrder = record {
  asymmetric = λ a b p q h. ground arith;
  tied = λ a b c p q r h k. ground arith;
}

no_order-IsOrder : IsOrder Anything no_order
no_order-IsOrder = record { asymmetric = λ a b p q h. refl; tied = λ a b c p q r h k. refl }

ties : (a b : ℕ) → eqb a b ≡ not (ltb a b || ltb b a)
ties a b = ground arith

a_matches : IsCandidate whole same json names no_order "default" none (in_store "a")
unfolding matches_recall_filter
a_matches = (refl, refl)

a_score : cosine_similarity whole (1 ∷ []) (1 ∷ []) ≡ ok 1
unfolding cosine_similarity validate_embedding
a_score = refl

query_top_example :
    Memᴰ (result_of whole same json names no_order request (in_store "a") 1) best
    ⊎ ((length best ≡ 1)
        × All
            (λ (r : RecallResult ℕ).
              result_before whole no_order
                (result_of whole same json names no_order request (in_store "a") 1)
                r
              ≡ false)
            best)
query_top_example =
    query_top whole same json names no_order one_document request (in_store "a") 1 ltb-IsOrder
      (λ a b p q. ties a b) no_order-IsOrder (λ x y m k c. refl) request_valid request_answered
      (Memᴰ.head refl) a_matches a_score
