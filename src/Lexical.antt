-- ===== src/Lexical.antt =====
-- packages/tekmemo/src/recall/lexical: the BM25 index (bm25.ts) over the terms of texts
-- (tokenize.ts). A call takes the store and gives the new one; `upsert` gives an error beside it,
-- since it throws in the middle of a batch. An entry of a batch is `none` where its id or its text
-- is not a string.
pub mod Frequencies
pub mod Index
pub mod Calls
pub mod Documents
pub mod History
mod Tests
use tekbreed_oss.Prelude.{
  ℕ, zero, suc, ◌+◌, ◌-◌, String, Bool, true, false, not, ◌||◌, Option, none, some, List, [], ◌∷◌,
  map, leb, if◌then◌else◌, get_or, filter, includes, length,
}
use tekbreed_oss.Prelude.Result.{Result, ok, throw}
use tekbreed_oss.JsMap
use tekbreed_oss.JsMap.{JsMap}
use tekbreed_oss.JsMap.Totals.{total}

pub record LexicalDocument : Type 0 where
  pub id : String
  pub text : String
  pub namespace : Option String

pub record IndexedDoc : Type 0 where
  pub id : String
  pub tokens : List String
  pub term_counts : JsMap ℕ
  pub length : ℕ

-- BM25Store's three maps, each by namespace.
pub record Bm25Store : Type 0 where
  pub default_namespace : String
  pub docs_by_namespace : JsMap (JsMap IndexedDoc)
  pub df_by_namespace : JsMap (JsMap ℕ)
  pub total_length_by_namespace : JsMap ℕ

-- RecallValidationError: "Each document requires string id and text."
pub data RecallError : Type 0 where
  document_invalid : RecallError

-- `map.get(key) ?? 0`
abbrev pub count_at : JsMap ℕ → String → ℕ
count_at counts k = get_or (JsMap.get counts k) 0

-- termFrequency: the loop over the tokens
unfoldable pub count_tokens : JsMap ℕ → List String → JsMap ℕ
count_tokens counts [] = counts
count_tokens counts (t ∷ tokens) = count_tokens (JsMap.set counts t (count_at counts t + 1)) tokens

unfoldable pub term_frequency : List String → JsMap ℕ
term_frequency tokens = count_tokens [] tokens

-- subtractDocumentFrequencies
unfoldable pub subtract_document_frequencies : JsMap ℕ → List String → JsMap ℕ
subtract_document_frequencies df [] = df
subtract_document_frequencies df (t ∷ terms) =
    let next = count_at df t - 1 in
    subtract_document_frequencies (if leb next 0 then JsMap.delete df t else JsMap.set df t next)
      terms

-- `for (const term of termCounts.keys()) df.set(term, (df.get(term) ?? 0) + 1)`
unfoldable pub add_document_frequencies : JsMap ℕ → List String → JsMap ℕ
add_document_frequencies df [] = df
add_document_frequencies df (t ∷ terms) =
    add_document_frequencies (JsMap.set df t (count_at df t + 1)) terms

-- What `upsert` and `delete` take out of the frequencies, and of the length, for a document that
-- was there.
abbrev pub df_without : JsMap ℕ → Option IndexedDoc → JsMap ℕ
df_without df none = df
df_without df (some d) = subtract_document_frequencies df (JsMap.keys d.term_counts)

abbrev pub length_without : JsMap ℕ → String → Option IndexedDoc → JsMap ℕ
length_without lengths ns none = lengths
length_without lengths ns (some d) = JsMap.set lengths ns (count_at lengths ns - d.length)

-- getOrCreate, on a map of maps
abbrev pub get_or_create {ℓ} : {V : Type ℓ} → JsMap (JsMap V) → String → JsMap V
get_or_create m k = get_or (JsMap.get m k) []

abbrev pub indexed_doc : String → List String → IndexedDoc
indexed_doc id tokens = record {
  id = id;
  tokens = tokens;
  term_counts = term_frequency tokens;
  length = length tokens;
}

-- The body of the loop of `upsert`, on a namespace and a document.
unfoldable pub index_doc : Bm25Store → String → IndexedDoc → Bm25Store
index_doc s ns d =
    let docs = get_or_create s.docs_by_namespace ns in
    let df = get_or_create s.df_by_namespace ns in
    let previous = JsMap.get docs d.id in
    let lengths = length_without s.total_length_by_namespace ns previous in
    record s {
      docs_by_namespace = JsMap.set s.docs_by_namespace ns (JsMap.set docs d.id d);
      df_by_namespace =
          JsMap.set s.df_by_namespace ns
            (add_document_frequencies (df_without df previous) (JsMap.keys d.term_counts));
      total_length_by_namespace = JsMap.set lengths ns (count_at lengths ns + d.length);
    }

-- One id of `delete`, where the namespace has both maps.
unfoldable pub remove_doc : Bm25Store → String → String → Bm25Store
remove_doc s ns id =
    let docs = get_or_create s.docs_by_namespace ns in
    let df = get_or_create s.df_by_namespace ns in
    elim (JsMap.get docs id) [
      | none ↦ s
      | some d ↦ record s {
        docs_by_namespace = JsMap.set s.docs_by_namespace ns (JsMap.delete docs id);
        df_by_namespace = JsMap.set s.df_by_namespace ns (df_without df (some d));
        total_length_by_namespace = length_without s.total_length_by_namespace ns (some d);
      }
    ]

unfoldable pub remove_docs : Bm25Store → String → List String → Bm25Store
remove_docs s ns [] = s
remove_docs s ns (id ∷ ids) = remove_docs (remove_doc s ns id) ns ids

-- delete
unfoldable pub delete : Bm25Store → List String → Option String → Bm25Store
delete s ids namespace =
    let ns = get_or namespace s.default_namespace in
    if not (JsMap.has s.docs_by_namespace ns) || not (JsMap.has s.df_by_namespace ns)
    then s
    else remove_docs s ns ids

-- clear
unfoldable pub clear : Bm25Store → Option String → Bm25Store
clear s none = record s {
  docs_by_namespace = [];
  df_by_namespace = [];
  total_length_by_namespace = [];
}
clear s (some ns) = record s {
  docs_by_namespace = JsMap.delete s.docs_by_namespace ns;
  df_by_namespace = JsMap.delete s.df_by_namespace ns;
  total_length_by_namespace = JsMap.delete s.total_length_by_namespace ns;
}

-- count
unfoldable pub count : Bm25Store → Option String → ℕ
count s none = total (λ (docs : JsMap IndexedDoc). JsMap.size docs) s.docs_by_namespace
count s (some ns) = JsMap.size (get_or_create s.docs_by_namespace ns)

-- new BM25Store
unfoldable pub new_store : String → Bm25Store
new_store default = record {
  default_namespace = default;
  docs_by_namespace = [];
  df_by_namespace = [];
  total_length_by_namespace = [];
}

-- STOP_WORDS
abbrev pub stop_words : List String
stop_words =
    "a" ∷ "an" ∷ "and" ∷ "are" ∷ "as" ∷ "at" ∷ "be" ∷ "but" ∷ "by" ∷ "for" ∷ "from" ∷ "has" ∷ "have"
    ∷ "he" ∷ "in" ∷ "is" ∷ "it" ∷ "its" ∷ "of" ∷ "on" ∷ "or" ∷ "that" ∷ "the" ∷ "this" ∷ "to"
    ∷ "was" ∷ "were" ∷ "will" ∷ "with" ∷ "i" ∷ "you" ∷ "we" ∷ "they" ∷ "them" ∷ "our" ∷ "your"
    ∷ "their" ∷ "me" ∷ "my" ∷ "do" ∷ "does" ∷ "did" ∷ "can" ∷ "could" ∷ "would" ∷ "should" ∷ "shall"
    ∷ "may" ∷ "might" ∷ "must" ∷ "how" ∷ "what" ∷ "when" ∷ "where" ∷ "who" ∷ "why" ∷ "which" ∷ "if"
    ∷ "then" ∷ "so" ∷ "than" ∷ "too" ∷ "very" ∷ "about" ∷ "into" ∷ "over" ∷ "under" ∷ "again" ∷ []

-- The language's toLowerCase, split at /[^a-z0-9]+/i, trim and length of a string.
module _ (lower : String → String) (split : String → List String) (trim : String → String)
    (units : String → ℕ) where
  -- tokenize
  unfoldable pub tokenize : String → Bool → ℕ → List String
  tokenize value drop_stop_words min_length =
      let terms = filter (λ t. leb min_length (units t)) (map trim (split (lower value))) in
      filter (λ t. not drop_stop_words || not (includes stop_words t)) terms

  -- upsert
  unfoldable pub upsert :
      Bm25Store → List (Option LexicalDocument) → Result RecallError (Unit {0}) × Bm25Store
  upsert s [] = (ok tt, s)
  upsert s (none ∷ documents) = (throw document_invalid, s)
  upsert s (some doc ∷ documents) =
      upsert
        (index_doc s (get_or doc.namespace s.default_namespace)
          (indexed_doc doc.id (tokenize doc.text true 1)))
        documents
