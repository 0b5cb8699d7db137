-- ===== src/Lexical/Frequencies.antt =====
-- What the loops of bm25.ts and tokenize.ts over terms do to a map of counts, term by term.
use tekbreed_oss.Prelude.{
  ℕ, zero, suc, ◌+◌, ◌-◌, String, ◌≡◌, refl, ap, ◌∙◌, false, Option, none, some, List, [], ◌∷◌,
  arith, ◌==◌, eq_iff, if◌then◌else◌, includes,
}
use tekbreed_oss.JsMap.{
  JsMap, keys, has, get, set, delete, Distinct, Distinct-set, get-set, get-delete,
}
use tekbreed_oss.JsMap.Bulk.{includes-keys}
use tekbreed_oss.Lexical.{
  count_at, count_tokens, term_frequency, subtract_document_frequencies, add_document_frequencies,
}

-- A count as a map keeps it: none is not written down.
abbrev pub positive : ℕ → Option ℕ
positive zero = none
positive (suc n) = some (suc n)

-- No text twice.
abbrev Apart : List String → Type 0
Apart [] = Unit {0}
Apart (t ∷ ts) = (includes ts t ≡ false) × Apart ts

Apart-keys {ℓ} : {V : Type ℓ} (m : JsMap V) → Distinct m → Apart (keys m)
Apart-keys [] d = tt
Apart-keys ((j, v) ∷ m) d = (ground (arith, includes-keys m j), Apart-keys m d.1)

get-add_terms :
    (df : JsMap ℕ) (terms : List String) (t : String)
    → Apart terms
    → get (add_document_frequencies df terms) t
      ≡ (if includes terms t then some (count_at df t + 1) else get df t)
unfolding add_document_frequencies includes
get-add_terms df [] t d = refl
get-add_terms df (u ∷ terms) t d = ground (
  arith,
  get-add_terms (set df u (count_at df u + 1)) terms t,
  get-set df u t (count_at df u + 1),
  eq_iff u t,
)

get-subtract_terms :
    (df : JsMap ℕ) (terms : List String) (t : String)
    → Apart terms
    → get (subtract_document_frequencies df terms) t
      ≡ (if includes terms t then positive (count_at df t - 1) else get df t)
unfolding subtract_document_frequencies includes
get-subtract_terms df [] t d = refl
get-subtract_terms df (u ∷ terms) t d = ground (
  arith,
  get-subtract_terms (delete df u) terms t,
  get-subtract_terms (set df u (count_at df u - 1)) terms t,
  get-delete df u t,
  get-set df u t (count_at df u - 1),
  eq_iff u t,
)

-- Adding a document's terms, in terms of the counts that the map had.
pub get-add_document_frequencies :
    (df counts : JsMap ℕ) (t : String)
    → Distinct counts
    → get (add_document_frequencies df (keys counts)) t
      ≡ (if has counts t then some (count_at df t + 1) else get df t)
get-add_document_frequencies df counts t d =
    rw (get-add_terms df (keys counts) t (Apart-keys counts d), includes-keys counts t) refl

pub get-subtract_document_frequencies :
    (df counts : JsMap ℕ) (t : String)
    → Distinct counts
    → get (subtract_document_frequencies df (keys counts)) t
      ≡ (if has counts t then positive (count_at df t - 1) else get df t)
get-subtract_document_frequencies df counts t d =
    rw (get-subtract_terms df (keys counts) t (Apart-keys counts d), includes-keys counts t) refl

Distinct-count_tokens :
    (counts : JsMap ℕ) (tokens : List String)
    → Distinct counts
    → Distinct (count_tokens counts tokens)
unfolding count_tokens
Distinct-count_tokens counts [] d = d
Distinct-count_tokens counts (t ∷ tokens) d =
    Distinct-count_tokens (set counts t (count_at counts t + 1)) tokens
      (Distinct-set counts t (count_at counts t + 1) d)

pub Distinct-term_frequency : (tokens : List String) → Distinct (term_frequency tokens)
unfolding term_frequency
Distinct-term_frequency tokens = Distinct-count_tokens [] tokens tt

-- How often a token stands in a list.
unfoldable pub occurrences : List String → String → ℕ
occurrences [] t = 0
occurrences (u ∷ tokens) t = (if u == t then 1 else 0) + occurrences tokens t

get-count_tokens :
    (counts : JsMap ℕ) (tokens : List String) (t : String)
    → count_at (count_tokens counts tokens) t ≡ count_at counts t + occurrences tokens t
unfolding count_tokens occurrences
get-count_tokens counts [] t = omega arith
get-count_tokens counts (u ∷ tokens) t = ground (
  arith,
  get-count_tokens (set counts u (count_at counts u + 1)) tokens t,
  get-set counts u t (count_at counts u + 1),
  eq_iff u t,
)

-- A count that was written is not 0.
no_zero :
    (counts : JsMap ℕ) (tokens : List String) (t : String)
    → get counts t ≡ positive (count_at counts t)
    → get (count_tokens counts tokens) t ≡ positive (count_at (count_tokens counts tokens) t)
unfolding count_tokens
no_zero counts [] t h = h
no_zero counts (u ∷ tokens) t h =
    no_zero (set counts u (count_at counts u + 1)) tokens t
      (ground (arith, get-set counts u t (count_at counts u + 1), eq_iff u t))

-- termFrequency gives for each text how often it stands among the tokens, and has no entry for a
-- text that does not.
pub get-term_frequency :
    (tokens : List String) (t : String)
    → get (term_frequency tokens) t ≡ positive (occurrences tokens t)
unfolding term_frequency get
get-term_frequency tokens t =
    no_zero [] tokens t refl ∙ ap positive (omega (arith, get-count_tokens [] tokens t))
