-- ===== src/Lexical/History.antt =====
-- Sequences of calls on the store of bm25.ts, and what a call leaves to be found.
use tekbreed_oss.Prelude.{
  ℕ, String, ◌≡◌, refl, ap, ◌∙◌, true, Option, none, some, List, [], ◌∷◌, ◌==◌, if◌then◌else◌,
  get_or, inl, inr, Bool-cases, ◌&&◌,
}
use tekbreed_oss.JsMap.{get}
use tekbreed_oss.JsMap.Bulk.{or_else}
use tekbreed_oss.JsMap.Totals.{total}
use tekbreed_oss.Lexical.{
  Bm25Store, IndexedDoc, LexicalDocument, count_at, get_or_create, index_doc, delete, clear, upsert,
  tokenize, indexed_doc, new_store,
}
use tekbreed_oss.Lexical.Documents.{
  doc_at, doc_at-index_doc, index_unique, docs_back, delete_present,
}
use tekbreed_oss.Lexical.Calls.{
  IsConsistent, index_doc-IsConsistent, delete-IsConsistent, clear-IsConsistent,
}

pub data Call : Type 0 where
  upsert_call : List (Option LexicalDocument) → Call
  delete_call : List String → Option String → Call
  clear_call : Option String → Call

module _ (lower : String → String) (split : String → List String) (trim : String → String)
    (units : String → ℕ) where
  -- The document that `upsert` makes of an entry, where it is for this namespace and id.
  abbrev pub entry_for : String → LexicalDocument → String → String → Option IndexedDoc
  entry_for default doc m i =
      if (get_or doc.namespace default == m) && (doc.id == i)
      then some (indexed_doc doc.id (tokenize lower split trim units doc.text true 1))
      else none

  -- The last entry of a batch for a namespace and an id, up to the first invalid entry.
  abbrev pub last_entry :
      String → List (Option LexicalDocument) → String → String → Option IndexedDoc
  last_entry default [] m i = none
  last_entry default (none ∷ documents) m i = none
  last_entry default (some doc ∷ documents) m i =
      or_else (last_entry default documents m i) (entry_for default doc m i)

  -- After `upsert`, also one that throws, a namespace has under an id the last entry for it that
  -- stands before the first invalid entry, tokenized, and where there is none, what it had.
  pub doc_at-upsert :
      (s : Bm25Store) (documents : List (Option LexicalDocument)) (m i : String)
      → doc_at (upsert lower split trim units s documents).1 m i
        ≡ or_else (last_entry s.default_namespace documents m i) (doc_at s m i)
  unfolding upsert index_doc
  doc_at-upsert s [] m i = refl
  doc_at-upsert s (none ∷ documents) m i = refl
  doc_at-upsert s (some doc ∷ documents) m i =
      doc_at-upsert (index_doc s ns d) documents m i
      ∙ ap (or_else (last_entry s.default_namespace documents m i)) (doc_at-index_doc s ns d m i)
      ∙ join (last_entry s.default_namespace documents m i)
    where
      ns : String
      ns = get_or doc.namespace s.default_namespace

      d : IndexedDoc
      d = indexed_doc doc.id (tokenize lower split trim units doc.text true 1)

      join :
          (later : Option IndexedDoc)
          → or_else later (if (ns == m) && (doc.id == i) then some d else doc_at s m i)
            ≡ or_else (or_else later (entry_for s.default_namespace doc m i)) (doc_at s m i)
      join none = elim (Bool-cases ((ns == m) && (doc.id == i))) [
        | inl e ↦ rw e refl
        | inr e ↦ rw e refl
      ]
      join (some later) = refl

  pub upsert-IsConsistent :
      (s : Bm25Store) (documents : List (Option LexicalDocument))
      → IsConsistent s
      → IsConsistent (upsert lower split trim units s documents).1
  unfolding upsert
  upsert-IsConsistent s [] c = c
  upsert-IsConsistent s (none ∷ documents) c = c
  upsert-IsConsistent s (some doc ∷ documents) c =
      upsert-IsConsistent (index_doc s (get_or doc.namespace s.default_namespace) d) documents
        (index_doc-IsConsistent s (get_or doc.namespace s.default_namespace) d (refl, refl, refl) c)
    where
      d : IndexedDoc
      d = indexed_doc doc.id (tokenize lower split trim units doc.text true 1)

  unfoldable pub step : Bm25Store → Call → Bm25Store
  step s (upsert_call documents) = (upsert lower split trim units s documents).1
  step s (delete_call ids namespace) = delete s ids namespace
  step s (clear_call namespace) = clear s namespace

  unfoldable pub run : Bm25Store → List Call → Bm25Store
  run s [] = s
  run s (call ∷ calls) = run (step s call) calls

  -- Each call keeps a store consistent.
  step-IsConsistent : (s : Bm25Store) (call : Call) → IsConsistent s → IsConsistent (step s call)
  unfolding step
  step-IsConsistent s (upsert_call documents) c = upsert-IsConsistent s documents c
  step-IsConsistent s (delete_call ids namespace) c = delete-IsConsistent s ids namespace c
  step-IsConsistent s (clear_call namespace) c = clear-IsConsistent s namespace c

  pub run-IsConsistent :
      (s : Bm25Store) (calls : List Call) → IsConsistent s → IsConsistent (run s calls)
  unfolding run
  run-IsConsistent s [] c = c
  run-IsConsistent s (call ∷ calls) c =
      run-IsConsistent (step s call) calls (step-IsConsistent s call c)

  new_store-IsConsistent : (default : String) → IsConsistent (new_store default)
  unfolding new_store total get
  new_store-IsConsistent default m = ((tt, tt, λ t. refl, refl), refl)

  -- After any calls of upsert, delete and clear on a new store, also an upsert that throws in the
  -- middle of its batch, every namespace is consistent: a term's frequency is the number of its
  -- documents with the term and is not written where that is 0, the total length is the sum of
  -- its documents' lengths, and every document stands once, under its id, with the frequencies
  -- and the length of its tokens.
  pub reachable-IsConsistent :
      (default : String) (calls : List Call) → IsConsistent (run (new_store default) calls)
  reachable-IsConsistent default calls =
      run-IsConsistent (new_store default) calls (new_store-IsConsistent default)

  -- On a consistent store whose namespace has no document with the id: `upsert` of one document
  -- and then `delete` of its id give back each namespace's documents, each term's frequency and
  -- each total length.
  pub upsert-delete :
      (s : Bm25Store) (doc : LexicalDocument) (m t : String)
      → IsConsistent s
      → doc_at s (get_or doc.namespace s.default_namespace) doc.id ≡ none
      → let s' =
          delete (upsert lower split trim units s (some doc ∷ [])).1 (doc.id ∷ []) doc.namespace in
        (get_or_create s'.docs_by_namespace m ≡ get_or_create s.docs_by_namespace m)
        × (get (get_or_create s'.df_by_namespace m) t ≡ get (get_or_create s.df_by_namespace m) t)
        × (count_at s'.total_length_by_namespace m ≡ count_at s.total_length_by_namespace m)
  unfolding upsert
  upsert-delete s doc m t c h = (
    back,
    (index_unique s after m t c after-IsConsistent back).0,
    (index_unique s after m t c after-IsConsistent back).1,
  )
    where
      ns : String
      ns = get_or doc.namespace s.default_namespace

      d : IndexedDoc
      d = indexed_doc doc.id (tokenize lower split trim units doc.text true 1)

      after : Bm25Store
      after = delete (upsert lower split trim units s (some doc ∷ [])).1 (doc.id ∷ []) doc.namespace

      after-IsConsistent : IsConsistent after
      after-IsConsistent =
          delete-IsConsistent (upsert lower split trim units s (some doc ∷ [])).1 (doc.id ∷ [])
            doc.namespace (upsert-IsConsistent s (some doc ∷ []) c)

      back : get_or_create after.docs_by_namespace m ≡ get_or_create s.docs_by_namespace m
      back =
          ap (λ x. get_or_create x.docs_by_namespace m) (delete_present s ns d doc.namespace refl)
          ∙ docs_back s ns d m h
