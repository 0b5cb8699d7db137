-- ===== src/Lexical/Documents.antt =====
-- The documents in a store of bm25.ts, and that they determine its index.
use tekbreed_oss.Prelude.{
  String, ◌≡◌, refl, sym, ap, ◌∙◌, true, false, Option, none, some, List, [], ◌∷◌, arith, ◌==◌,
  eq_iff, if◌then◌else◌, get_or, inl, inr, Option-cases, Bool-cases, includes, eq_refl, ◌&&◌,
}
use tekbreed_oss.JsMap
use tekbreed_oss.JsMap.{JsMap, keys, has, get, set, get-set, get-delete}
use tekbreed_oss.JsMap.Totals.{total}
use tekbreed_oss.Lexical.{
  Bm25Store, IndexedDoc, count_at, get_or_create, index_doc, remove_doc, remove_docs, delete,
  add_document_frequencies, df_without,
}
use tekbreed_oss.Lexical.Frequencies.{positive}
use tekbreed_oss.Lexical.Index.{contains, doc_length}
use tekbreed_oss.Lexical.Calls.{
  IsConsistent, remove_doc-none, remove_doc-some, get-set-here, get-set-there,
}

-- The document that a namespace has under an id.
abbrev pub doc_at : Bm25Store → String → String → Option IndexedDoc
doc_at s ns id = get (get_or_create s.docs_by_namespace ns) id

pub doc_at-index_doc :
    (s : Bm25Store) (ns : String) (d : IndexedDoc) (m i : String)
    → doc_at (index_doc s ns d) m i ≡ (if (ns == m) && (d.id == i) then some d else doc_at s m i)
unfolding index_doc
doc_at-index_doc s ns d m i = ground (
  arith,
  eq_iff ns m,
  get-set s.docs_by_namespace ns m (set (get_or_create s.docs_by_namespace ns) d.id d),
  get-set (get_or_create s.docs_by_namespace ns) d.id i d,
)

doc_at-remove_doc :
    (s : Bm25Store) (ns id m i : String)
    → doc_at (remove_doc s ns id) m i ≡ (if (ns == m) && (id == i) then none else doc_at s m i)
doc_at-remove_doc s ns id m i =
    elim (Option-cases (get (get_or_create s.docs_by_namespace ns) id)) [
      | inl e ↦ rw (remove_doc-none s ns id e) (ground (arith, eq_iff ns m, eq_iff id i))
      | inr (d, e) ↦ rw (remove_doc-some s ns id e) (
          ground (
            arith,
            eq_iff ns m,
            get-set s.docs_by_namespace ns m
                (JsMap.delete (get_or_create s.docs_by_namespace ns) id),
            get-delete (get_or_create s.docs_by_namespace ns) id i,
          ))
    ]

pub doc_at-remove_docs :
    (s : Bm25Store) (ns : String) (ids : List String) (m i : String)
    → doc_at (remove_docs s ns ids) m i
      ≡ (if (ns == m) && includes ids i then none else doc_at s m i)
unfolding remove_docs includes
doc_at-remove_docs s ns [] m i = ground arith
doc_at-remove_docs s ns (id ∷ ids) m i =
    ground
      (arith, doc_at-remove_docs (remove_doc s ns id) ns ids m i, doc_at-remove_doc s ns id m i)

-- On a consistent store, `delete` takes away exactly the documents with the given ids in the
-- given namespace (the default one where none is given), and every other document stays.
pub doc_at-delete :
    (s : Bm25Store) (ids : List String) (namespace : Option String) (m i : String)
    → IsConsistent s
    → doc_at (delete s ids namespace) m i ≡ (
        if (get_or namespace s.default_namespace == m) && includes ids i
        then none
        else doc_at s m i)
unfolding delete get
doc_at-delete s ids namespace m i c = elim (Bool-cases (has s.docs_by_namespace ns)) [
  | inl e ↦ rw (e, sym (c ns).1 ∙ e) (doc_at-remove_docs s ns ids m i)
  | inr e ↦ rw e (ground (arith, eq_iff ns m))
]
  where
    ns : String
    ns = get_or namespace s.default_namespace

-- A new key, taken out again.
delete-set_new {ℓ} :
    {V : Type ℓ} (m : JsMap V) (k : String) (v : V)
    → get m k ≡ none
    → JsMap.delete (set m k v) k ≡ m
unfolding get set JsMap.delete
delete-set_new [] k v h = ground (arith, eq_iff k k)
delete-set_new ((j, w) ∷ m) k v h = ground (arith, delete-set_new m k v)

-- Two consistent stores with the same documents in a namespace have the same index of it.
pub index_unique :
    (s s' : Bm25Store) (m t : String)
    → IsConsistent s
    → IsConsistent s'
    → get_or_create s'.docs_by_namespace m ≡ get_or_create s.docs_by_namespace m
    → (get (get_or_create s'.df_by_namespace m) t ≡ get (get_or_create s.df_by_namespace m) t)
      × (count_at s'.total_length_by_namespace m ≡ count_at s.total_length_by_namespace m)
index_unique s s' m t c c' e = (
  (c' m).0.2 t ∙ ap (λ docs. positive (total (contains t) docs)) e ∙ sym ((c m).0.2 t),
  (c' m).0.3 ∙ ap (total doc_length) e ∙ sym (c m).0.3,
)

pub docs_back :
    (s : Bm25Store) (ns : String) (d : IndexedDoc) (m : String)
    → doc_at s ns d.id ≡ none
    → get_or_create (remove_doc (index_doc s ns d) ns d.id).docs_by_namespace m
      ≡ get_or_create s.docs_by_namespace m
unfolding index_doc
docs_back s ns d m h =
    rw (remove_doc-some (index_doc s ns d) ns d.id present)
      (elim (Bool-cases (ns == m)) [ inl e ↦ here e | inr e ↦ there e ])
  where
    present : doc_at (index_doc s ns d) ns d.id ≡ some d
    present = ground (arith, doc_at-index_doc s ns d ns d.id, eq_iff ns ns, eq_iff d.id d.id)

    written :
        get_or_create (index_doc s ns d).docs_by_namespace ns
        ≡ set (get_or_create s.docs_by_namespace ns) d.id d
    written =
        rw
          (get-set-here s.docs_by_namespace ns ns
            (set (get_or_create s.docs_by_namespace ns) d.id d) (eq_refl ns))
          refl

    left : JsMap IndexedDoc
    left = JsMap.delete (get_or_create (index_doc s ns d).docs_by_namespace ns) d.id

    here :
        (ns == m) ≡ true
        → get_or_create (set (index_doc s ns d).docs_by_namespace ns left) m
          ≡ get_or_create s.docs_by_namespace m
    here e = rw (get-set-here (index_doc s ns d).docs_by_namespace ns m left e) (
        ap (λ docs. JsMap.delete docs d.id) written
        ∙ delete-set_new (get_or_create s.docs_by_namespace ns) d.id d h
        ∙ ap (get_or_create s.docs_by_namespace) ((eq_iff ns m).0 e))

    there :
        (ns == m) ≡ false
        → get_or_create (set (index_doc s ns d).docs_by_namespace ns left) m
          ≡ get_or_create s.docs_by_namespace m
    there e =
        rw
          (
            get-set-there (index_doc s ns d).docs_by_namespace ns m left e,
            get-set-there s.docs_by_namespace ns m
                (set (get_or_create s.docs_by_namespace ns) d.id d) e,
          )
          refl

-- `delete` of the id just written goes on to the loop.
pub delete_present :
    (s : Bm25Store) (ns : String) (d : IndexedDoc) (namespace : Option String)
    → get_or namespace s.default_namespace ≡ ns
    → delete (index_doc s ns d) (d.id ∷ []) namespace ≡ remove_doc (index_doc s ns d) ns d.id
unfolding delete remove_docs index_doc
delete_present s ns d namespace h =
    rw
      (
        h,
        get-set s.docs_by_namespace ns ns (set (get_or_create s.docs_by_namespace ns) d.id d),
        eq_refl ns,
      )
      (rw
        (
          get-set s.df_by_namespace ns ns (
              add_document_frequencies
                (df_without (get_or_create s.df_by_namespace ns) (doc_at s ns d.id))
                (keys d.term_counts)),
          eq_refl ns,
        )
        refl)
