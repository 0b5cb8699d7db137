-- ===== src/Recall/Scoring.antt =====
-- packages/tekmemo/src/recall/scoring/cosine.ts: the score of a document, and the order of results.
-- `locale_lt a b` is `a.localeCompare(b) < 0`. Array.prototype.sort is stable, and is given here as
-- an insertion sort by the test that its comparison is below 0.
use tekbreed_oss.Prelude.{
  String, Bool, not, ◌||◌, Option, none, List, [], ◌∷◌, eqb, if◌then◌else◌, length,
}
use tekbreed_oss.Prelude.Floats.{Floats}
use tekbreed_oss.Prelude.Json.{Fields}
use tekbreed_oss.Prelude.Result.{ok, throw, ◌>>◌}
use tekbreed_oss.Recall.Validation.{Checked, dimension, validate_embedding}

module _ {A : Type 0} (before : A → A → Bool) where
  unfoldable pub insert : A → List A → List A
  insert x [] = x ∷ []
  insert x (y ∷ ys) = let rest = insert x ys in if before y x then y ∷ rest else x ∷ y ∷ ys

  unfoldable pub sort_by : List A → List A
  sort_by [] = []
  sort_by (x ∷ xs) = insert x (sort_by xs)

pub record RecallResult (Float : Type 0) : Type 0 where
  pub id : String
  pub score : Float
  pub text : Option String
  pub metadata : Option Fields
  pub namespace : String

module _ (F : Floats) where
  -- dot, normA and normB
  abbrev pub sums :
      List F.Float → List F.Float → F.Float × F.Float × F.Float → F.Float × F.Float × F.Float
  sums (x ∷ xs) (y ∷ ys) (dot, norm_a, norm_b) =
      sums xs ys (F.add dot (F.mul x y), F.add norm_a (F.mul x x), F.add norm_b (F.mul y y))
  sums _ _ totals = totals

  abbrev pub quotient : F.Float × F.Float × F.Float → F.Float
  quotient (dot, norm_a, norm_b) =
      if F.eq norm_a (F.of_nat 0) || F.eq norm_b (F.of_nat 0)
      then F.of_nat 0
      else F.div dot (F.mul (F.sqrt norm_a) (F.sqrt norm_b))

  -- cosineSimilarity
  unfoldable pub cosine_similarity : List F.Float → List F.Float → Checked F.Float
  cosine_similarity a b = do
    validate_embedding F a none
    validate_embedding F b none
    if eqb (length a) (length b)
        then ok (quotient (sums a b (F.of_nat 0, F.of_nat 0, F.of_nat 0)))
        else throw dimension

  -- the comparison of sortRecallScores, where it is below 0
  unfoldable pub result_before :
      (String → String → Bool) → RecallResult F.Float → RecallResult F.Float → Bool
  result_before locale_lt a b =
      if not (F.eq b.score a.score) then F.lt b.score a.score else locale_lt a.id b.id

  -- sortRecallScores. Where a score is NaN, the comparison is no order and the language leaves the
  -- result open; this is one of the orders then.
  abbrev pub sort_recall_scores :
      (String → String → Bool) → List (RecallResult F.Float) → List (RecallResult F.Float)
  sort_recall_scores locale_lt results = sort_by (result_before locale_lt) results
