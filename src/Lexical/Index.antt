-- ===== src/Lexical/Index.antt =====
-- What the three maps of bm25.ts have to do with each other, and that the store's writes keep it.
use tekbreed_oss.Prelude.{
  ℕ, ◌+◌, ◌-◌, String, ◌≡◌, sym, arith, if◌then◌else◌, length, inl, inr, Option-cases,
}
use tekbreed_oss.JsMap
use tekbreed_oss.JsMap.{
  JsMap, keys, has, get, set, Distinct, Distinct-set, Distinct-delete, get-set, get-delete,
}
use mathlib.Core.Path.{subst}
use tekbreed_oss.JsMap.Entries.{Entries, Entries-set, Entries-delete, Entries-get}
use tekbreed_oss.JsMap.Totals.{total, share, total-set, share-le-total, total-delete}
use tekbreed_oss.Lexical.{IndexedDoc, add_document_frequencies, df_without, term_frequency}
use tekbreed_oss.Lexical.Frequencies.{
  positive, get-add_document_frequencies, get-subtract_document_frequencies,
  Distinct-term_frequency,
}

-- 1 where the document has the term.
abbrev pub contains : String → IndexedDoc → ℕ
contains t d = if has d.term_counts t then 1 else 0

abbrev pub doc_length : IndexedDoc → ℕ
doc_length d = d.length

-- A document under its id, with the frequencies and the length of its tokens.
abbrev pub IsDoc : String → IndexedDoc → Type 0
IsDoc id d = (d.id ≡ id) × (d.term_counts ≡ term_frequency d.tokens) × (d.length ≡ length d.tokens)

-- A namespace: a term's frequency is the number of documents that have it, and is not written where
-- there are none; the length is the sum of the documents' lengths.
abbrev pub IsIndexed : JsMap IndexedDoc → JsMap ℕ → ℕ → Type 0
IsIndexed docs df len =
    Distinct docs
    × Entries IsDoc docs
    × ((t : String) → get df t ≡ positive (total (contains t) docs))
    × (len ≡ total doc_length docs)

Distinct-term_counts : {id : String} (d : IndexedDoc) → IsDoc id d → Distinct d.term_counts
Distinct-term_counts d is = subst Distinct (sym is.1) (Distinct-term_frequency d.tokens)

module _ (docs : JsMap IndexedDoc) (df : JsMap ℕ) (len : ℕ) where
  get-df_without :
      (id t : String)
      → IsIndexed docs df len
      → get (df_without df (get docs id)) t
        ≡ positive (total (contains t) docs - share (contains t) (get docs id))
  get-df_without id t ix = elim (Option-cases (get docs id)) [
    | inl e ↦ rw e (ground (arith, ix.2 t))
    | inr (p, e) ↦ rw e (
        ground (
          arith,
          get-subtract_document_frequencies df p.term_counts t
              (Distinct-term_counts p (Entries-get IsDoc docs id ix.1 e)),
          ix.2 t,
        ))
  ]

  -- The namespace after a document is written.
  pub set-IsIndexed :
      (d : IndexedDoc)
      → IsDoc d.id d
      → IsIndexed docs df len
      → IsIndexed
          (set docs d.id d)
          (add_document_frequencies (df_without df (get docs d.id)) (keys d.term_counts))
          (len - share doc_length (get docs d.id) + d.length)
  set-IsIndexed d is ix = (
    Distinct-set docs d.id d ix.0,
    Entries-set IsDoc docs d.id d ix.1 is,
    frequency,
    ground (arith, total-set doc_length docs d.id d, share-le-total doc_length docs d.id, ix.3),
  )
    where
      frequency :
          (t : String)
          → get (add_document_frequencies (df_without df (get docs d.id)) (keys d.term_counts)) t
            ≡ positive (total (contains t) (set docs d.id d))
      frequency t = ground (
        arith,
        get-add_document_frequencies (df_without df (get docs d.id)) d.term_counts t
            (Distinct-term_counts d is),
        get-df_without d.id t ix,
        total-set (contains t) docs d.id d,
        share-le-total (contains t) docs d.id,
      )

  -- The namespace after a document is taken out.
  pub delete-IsIndexed :
      (id : String)
      → IsIndexed docs df len
      → IsIndexed
          (JsMap.delete docs id)
          (df_without df (get docs id))
          (len - share doc_length (get docs id))
  delete-IsIndexed id ix = (
    Distinct-delete docs id ix.0,
    Entries-delete IsDoc docs id ix.1,
    λ t. ground (arith, get-df_without id t ix, total-delete (contains t) docs id ix.0),
    ground (arith, total-delete doc_length docs id ix.0, ix.3),
  )
