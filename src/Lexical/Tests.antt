-- ===== src/Lexical/Tests.antt =====
-- The index of bm25.ts on a small store, with simple stand-ins for the language's text functions.
use tekbreed_oss.Prelude.{ℕ, String, ◌≡◌, refl, Option, none, some, List, [], ◌∷◌, true, includes}
use tekbreed_oss.JsMap
use tekbreed_oss.Lexical.{
  clear, index_doc, remove_docs, remove_doc, get_or_create, count_at, count_tokens,
  add_document_frequencies, subtract_document_frequencies, Bm25Store, LexicalDocument, upsert,
  delete, new_store, term_frequency, tokenize,
}
use tekbreed_oss.Lexical.Calls.{IsConsistent}
use tekbreed_oss.Lexical.History
use tekbreed_oss.Lexical.History.{
  upsert-delete, Call, upsert_call, delete_call, clear_call, run, reachable-IsConsistent,
  doc_at-upsert,
}

abbrev same : String → String
same s = s

abbrev twice : String → List String
twice s = s ∷ s ∷ "the" ∷ []

abbrev one : String → ℕ
one s = 1

abbrev entry : String → String → Option String → Option LexicalDocument
entry id text namespace = some (record { id = id; text = text; namespace = namespace })

abbrev batch : List (Option LexicalDocument)
batch =
    entry "a" "apple" none
    ∷ entry "b" "pear" (some "n")
    ∷ entry "a" "pear" none
    ∷ none
    ∷ entry "c" "plum" none
    ∷ []

abbrev calls : List Call
calls =
    upsert_call batch
    ∷ upsert_call (entry "d" "pear" none ∷ [])
    ∷ delete_call ("x" ∷ "a" ∷ []) none
    ∷ clear_call (some "n")
    ∷ []

abbrev store : Bm25Store
store = run same twice same one (new_store "default") calls

tokens_of_text : tokenize same twice same one "pear" true 1 ≡ "pear" ∷ "pear" ∷ []
unfolding tokenize includes
tokens_of_text = refl

reachable-IsConsistent_example : IsConsistent store
reachable-IsConsistent_example = reachable-IsConsistent same twice same one "default" calls

-- A document that the store does not have.
abbrev newcomer : LexicalDocument
newcomer = record { id = "z"; text = "plum"; namespace = none }

abbrev after : Bm25Store
after = delete (upsert same twice same one store (some newcomer ∷ [])).1 ("z" ∷ []) none

upsert-delete_example :
    (get_or_create after.docs_by_namespace "default"
      ≡ get_or_create store.docs_by_namespace "default")
    × (JsMap.get (get_or_create after.df_by_namespace "default") "plum"
        ≡ JsMap.get (get_or_create store.df_by_namespace "default") "plum")
    × (count_at after.total_length_by_namespace "default"
        ≡ count_at store.total_length_by_namespace "default")
unfolding run History.step clear delete JsMap.get upsert index_doc JsMap.set new_store remove_docs
    remove_doc JsMap.delete
upsert-delete_example =
    upsert-delete same twice same one store newcomer "default" "plum" reachable-IsConsistent_example
      refl

-- "d" is left with two tokens of one term.
store_frequency : JsMap.get (get_or_create store.df_by_namespace "default") "pear" ≡ some 1
unfolding run History.step clear delete JsMap.get upsert index_doc JsMap.set new_store remove_docs
    remove_doc JsMap.delete tokenize includes term_frequency count_tokens add_document_frequencies
    subtract_document_frequencies
store_frequency = refl
