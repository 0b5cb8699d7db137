-- ===== src/Lexical/Calls.antt =====
-- The store of bm25.ts through its calls.
use mathlib.Core.Path.{subst}
use tekbreed_oss.Prelude.{
  ℕ, ◌+◌, ◌-◌, String, ◌≡◌, refl, sym, ◌∙◌, true, false, Option, none, some, List, [], ◌∷◌, arith,
  ◌==◌, eq_iff, get_or, inl, inr, Option-cases, Bool-cases,
}
use tekbreed_oss.JsMap
use tekbreed_oss.JsMap.{JsMap, keys, has, get, set, get-set, get-delete}
use tekbreed_oss.JsMap.Totals.{share, total}
use tekbreed_oss.Lexical.{
  Bm25Store, IndexedDoc, count_at, df_without, length_without, get_or_create,
  add_document_frequencies, index_doc, remove_doc, remove_docs, delete, clear,
}
use tekbreed_oss.Lexical.Index.{IsIndexed, IsDoc, doc_length, set-IsIndexed, delete-IsIndexed}

-- Every namespace is indexed, and has both of its maps or neither.
abbrev pub IsConsistent : Bm25Store → Type 0
IsConsistent s =
    (ns : String)
    → IsIndexed (get_or_create s.docs_by_namespace ns) (get_or_create s.df_by_namespace ns)
        (count_at s.total_length_by_namespace ns)
      × (has s.docs_by_namespace ns ≡ has s.df_by_namespace ns)

length_without-here :
    (lengths : JsMap ℕ) (ns : String) (p : Option IndexedDoc)
    → count_at (length_without lengths ns p) ns ≡ count_at lengths ns - share doc_length p
length_without-here lengths ns none = omega arith
length_without-here lengths ns (some d) =
    ground (arith, get-set lengths ns ns (count_at lengths ns - d.length), eq_iff ns ns)

length_without-there :
    (lengths : JsMap ℕ) (ns j : String) (p : Option IndexedDoc)
    → (ns == j) ≡ false
    → get (length_without lengths ns p) j ≡ get lengths j
length_without-there lengths ns j none h = refl
length_without-there lengths ns j (some d) h =
    ground (arith, get-set lengths ns j (count_at lengths ns - d.length))

-- A write to one namespace, and the same write seen at each namespace.
module _ {ℓ} {V : Type ℓ} (m : JsMap V) (k j : String) (v : V) where
  pub get-set-here : (k == j) ≡ true → get (set m k v) j ≡ some v
  get-set-here e = rw (get-set m k j v, e) refl

  pub get-set-there : (k == j) ≡ false → get (set m k v) j ≡ get m j
  get-set-there e = rw (get-set m k j v, e) refl

pub index_doc-IsConsistent :
    (s : Bm25Store) (ns : String) (d : IndexedDoc)
    → IsDoc d.id d
    → IsConsistent s
    → IsConsistent (index_doc s ns d)
unfolding index_doc
index_doc-IsConsistent s ns d is c j = elim (Bool-cases (ns == j)) [
  | inl e ↦ here e
  | inr e ↦ there e
]
  where
    docs : JsMap IndexedDoc
    docs = get_or_create s.docs_by_namespace ns

    df : JsMap ℕ
    df = get_or_create s.df_by_namespace ns

    df' : JsMap ℕ
    df' = add_document_frequencies (df_without df (get docs d.id)) (keys d.term_counts)

    lengths : JsMap ℕ
    lengths = length_without s.total_length_by_namespace ns (get docs d.id)

    After : Type 0
    After =
        IsIndexed (get_or_create (set s.docs_by_namespace ns (set docs d.id d)) j)
          (get_or_create (set s.df_by_namespace ns df') j)
          (count_at (set lengths ns (count_at lengths ns + d.length)) j)
        × (has (set s.docs_by_namespace ns (set docs d.id d)) j
            ≡ has (set s.df_by_namespace ns df') j)

    here : (ns == j) ≡ true → After
    here e =
        rw
          (
            get-set-here s.docs_by_namespace ns j (set docs d.id d) e,
            get-set-here s.df_by_namespace ns j df' e,
            get-set-here lengths ns j (count_at lengths ns + d.length) e,
            length_without-here s.total_length_by_namespace ns (get docs d.id),
          )
          (set-IsIndexed docs df (count_at s.total_length_by_namespace ns) d is (c ns).0, refl)

    there : (ns == j) ≡ false → After
    there e =
        rw
          (
            get-set-there s.docs_by_namespace ns j (set docs d.id d) e,
            get-set-there s.df_by_namespace ns j df' e,
            get-set-there lengths ns j (count_at lengths ns + d.length) e,
            length_without-there s.total_length_by_namespace ns j (get docs d.id) e,
          )
          (c j)

pub remove_doc-none :
    (s : Bm25Store) (ns id : String)
    → get (get_or_create s.docs_by_namespace ns) id ≡ none
    → remove_doc s ns id ≡ s
unfolding remove_doc
remove_doc-none s ns id e = rw (e, remove_doc) refl

-- The store with a document taken out.
abbrev pub removed : Bm25Store → String → String → IndexedDoc → Bm25Store
removed s ns id d = record s {
  docs_by_namespace =
      set s.docs_by_namespace ns (JsMap.delete (get_or_create s.docs_by_namespace ns) id);
  df_by_namespace =
      set s.df_by_namespace ns (df_without (get_or_create s.df_by_namespace ns) (some d));
  total_length_by_namespace = length_without s.total_length_by_namespace ns (some d);
}

pub remove_doc-some :
    (s : Bm25Store) (ns id : String) {d : IndexedDoc}
    → get (get_or_create s.docs_by_namespace ns) id ≡ some d
    → remove_doc s ns id ≡ removed s ns id d
unfolding remove_doc
remove_doc-some s ns id e = rw (e, remove_doc) refl

removed-IsConsistent :
    (s : Bm25Store) (ns id : String) (d : IndexedDoc)
    → get (get_or_create s.docs_by_namespace ns) id ≡ some d
    → IsConsistent s
    → IsConsistent (removed s ns id d)
removed-IsConsistent s ns id d e c j = elim (Bool-cases (ns == j)) [
  | inl f ↦ here f
  | inr f ↦ there f
]
  where
    docs : JsMap IndexedDoc
    docs = get_or_create s.docs_by_namespace ns

    df : JsMap ℕ
    df = get_or_create s.df_by_namespace ns

    After : Type 0
    After =
        IsIndexed (get_or_create (set s.docs_by_namespace ns (JsMap.delete docs id)) j)
          (get_or_create (set s.df_by_namespace ns (df_without df (some d))) j)
          (count_at (length_without s.total_length_by_namespace ns (some d)) j)
        × (has (set s.docs_by_namespace ns (JsMap.delete docs id)) j
            ≡ has (set s.df_by_namespace ns (df_without df (some d))) j)

    here : (ns == j) ≡ true → After
    here f =
        rw
          (
            get-set-here s.docs_by_namespace ns j (JsMap.delete docs id) f,
            get-set-here s.df_by_namespace ns j (df_without df (some d)) f,
            sym ((eq_iff ns j).0 f),
            length_without-here s.total_length_by_namespace ns (some d),
          )
          (
            subst
                (λ p.
                  IsIndexed (JsMap.delete docs id) (df_without df p)
                    (count_at s.total_length_by_namespace ns - share doc_length p))
                e (delete-IsIndexed docs df (count_at s.total_length_by_namespace ns) id (c ns).0),
            refl,
          )

    there : (ns == j) ≡ false → After
    there f =
        rw
          (
            get-set-there s.docs_by_namespace ns j (JsMap.delete docs id) f,
            get-set-there s.df_by_namespace ns j (df_without df (some d)) f,
            length_without-there s.total_length_by_namespace ns j (some d) f,
          )
          (c j)

remove_doc-IsConsistent :
    (s : Bm25Store) (ns id : String) → IsConsistent s → IsConsistent (remove_doc s ns id)
remove_doc-IsConsistent s ns id c =
    elim (Option-cases (get (get_or_create s.docs_by_namespace ns) id)) [
      | inl e ↦ subst IsConsistent (sym (remove_doc-none s ns id e)) c
      | inr (d, e) ↦
          subst IsConsistent (sym (remove_doc-some s ns id e)) (removed-IsConsistent s ns id d e c)
    ]

remove_docs-IsConsistent :
    (s : Bm25Store) (ns : String) (ids : List String)
    → IsConsistent s
    → IsConsistent (remove_docs s ns ids)
unfolding remove_docs
remove_docs-IsConsistent s ns [] c = c
remove_docs-IsConsistent s ns (id ∷ ids) c =
    remove_docs-IsConsistent (remove_doc s ns id) ns ids (remove_doc-IsConsistent s ns id c)

pub delete-IsConsistent :
    (s : Bm25Store) (ids : List String) (namespace : Option String)
    → IsConsistent s
    → IsConsistent (delete s ids namespace)
unfolding delete
delete-IsConsistent s ids namespace c = elim (Bool-cases (has s.docs_by_namespace ns)) [
  | inr e ↦ rw e c
  | inl e ↦ rw (e, sym (c ns).1 ∙ e) (remove_docs-IsConsistent s ns ids c)
]
  where
    ns : String
    ns = get_or namespace s.default_namespace

pub clear-IsConsistent :
    (s : Bm25Store) (namespace : Option String) → IsConsistent s → IsConsistent (clear s namespace)
unfolding clear total get
clear-IsConsistent s none c j = ((tt, tt, λ t. refl, refl), refl)
clear-IsConsistent s (some ns) c j =
    rw
      (
        get-delete s.docs_by_namespace ns j,
        get-delete s.df_by_namespace ns j,
        get-delete s.total_length_by_namespace ns j,
      )
      (elim (Bool-cases (ns == j)) [
        | inl e ↦ rw e ((tt, tt, λ t. refl, refl), refl)
        | inr e ↦ rw e (c j)
      ])
