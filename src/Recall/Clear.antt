-- ===== src/Recall/Clear.antt =====
-- clear of one namespace of the in-memory recall store.
use text.Mathlib.TextLemmas.{append_assoc}
use text.Mathlib.TextPositions.{starts_with-append}
use Prim.Native.String.{String, ◌++◌ as append}
use mathlib.Core.Path.{subst}
use tekbreed_oss.Prelude.{
  ◌≡◌, refl, sym, ◌∙◌, Bool, true, false, ◌&&◌, Option, none, some, List, [], ◌∷◌, arith, eq_iff,
  if◌then◌else◌, Bool-cases, inl, inr, ◌≢◌, is_some,
}
use tekbreed_oss.Prelude.Codes.{starts_with}
use tekbreed_oss.Prelude.Floats.{Floats}
use tekbreed_oss.Prelude.Number.{JsNumber}
use tekbreed_oss.Prelude.Result.{ok}
use tekbreed_oss.JsMap
use tekbreed_oss.JsMap.{JsMap, get-delete}
use tekbreed_oss.JsMap.Entries.{Entries-get}
use tekbreed_oss.Recall.Validation.{normalize_namespace}
use tekbreed_oss.Recall.{
  Store, StoredDocument, DuplicateBehavior, key, clear, delete_where, new_store,
}
use tekbreed_oss.Recall.History.{Call, run, IsStored, reachable-IsUniform}

-- A key starts with its namespace and the colon.
starts_with-key :
    (namespace id : String) → starts_with (key namespace id) (append namespace ":") ≡ true
starts_with-key namespace id =
    subst (λ k. starts_with k (append namespace ":") ≡ true) (append_assoc namespace ":" id)
      (starts_with-append (append namespace ":") id)

module _ (F : Floats) (trim : String → String) where
  -- The loop hits a key that stands in the list where the test holds.
  get-delete_where :
      (p : String → Bool) (l m : JsMap (StoredDocument F.Float)) (k : String)
      → JsMap.get (delete_where F trim (λ e. p e.0) l m) k
        ≡ (if JsMap.has l k && p k then none else JsMap.get m k)
  unfolding delete_where JsMap.get
  get-delete_where p [] m k = refl
  get-delete_where p ((j, d) ∷ l) m k = elim (Bool-cases (p j)) [
    | inl h ↦
        ground (arith, h, get-delete_where p l (JsMap.delete m j) k, get-delete m j k, eq_iff j k)
    | inr h ↦ ground (arith, h, get-delete_where p l m k, eq_iff j k)
  ]

  hidden :
      (o : Option (StoredDocument F.Float)) (b : Bool)
      → (if is_some o && b then none else o) ≡ (if b then none else o)
  hidden none true = refl
  hidden none false = refl
  hidden (some d) true = refl
  hidden (some d) false = refl

  clear-get :
      (s : Store F trim) (namespace : String) {ns : String} (k : String)
      → normalize_namespace trim (some namespace) s.default_namespace ≡ ok ns
      → JsMap.get (clear F trim s (some namespace)).0.documents k
        ≡ (if starts_with k (append ns ":") then none else JsMap.get s.documents k)
  unfolding clear
  clear-get s namespace {ns} k h =
      rw (h, clear)
        (get-delete_where (λ j. starts_with j (append ns ":")) s.documents s.documents k
          ∙ hidden (JsMap.get s.documents k) (starts_with k (append ns ":")))

  -- On a new store after any calls, `clear` of a valid namespace leaves under a key only what
  -- stood there before, no document of that namespace, and no key that starts with the namespace
  -- and a colon.
  pub clear_namespace :
      (dim : Option JsNumber) (duplicates : DuplicateBehavior) (default : Option String)
      (cs : List (Call F trim)) (namespace : String) {s : Store F trim} {ns : String} (k : String)
      {d : StoredDocument F.Float}
      → new_store F trim dim duplicates default ≡ ok s
      → normalize_namespace trim (some namespace) (run F trim s cs).default_namespace ≡ ok ns
      → JsMap.get (clear F trim (run F trim s cs) (some namespace)).0.documents k ≡ some d
      → (d.namespace ≢ ns)
        × (JsMap.get (run F trim s cs).documents k ≡ some d)
        × (starts_with k (append ns ":") ≡ false)
  clear_namespace dim duplicates default cs namespace {s} {ns} k {d} c name h =
      let found = sym (clear-get (run F trim s cs) namespace k name) ∙ h in
      let stored = reachable-IsUniform F trim dim duplicates default cs c in
      elim (Bool-cases (starts_with k (append ns ":"))) [
        | inl hit ↦ cc (rw hit at found)
        | inr miss ↦
            let kept = rw miss at found in
            let own =
              Entries-get (IsStored F trim s.dimension) (run F trim s cs).documents k stored.1
                kept in
            (λ same. ne own.0 same miss, kept, miss)
      ]
    where
      ne :
          {j : String}
          → j ≡ key d.namespace d.id
          → d.namespace ≡ ns
          → starts_with j (append ns ":") ≡ false
          → ⊥
      ne {j} own same miss =
          let hit =
            subst (λ i. starts_with i (append d.namespace ":") ≡ true) (sym own)
              (starts_with-key d.namespace d.id) in
          let hit' = subst (λ n. starts_with j (append n ":") ≡ true) same hit in cc
