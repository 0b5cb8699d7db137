-- ===== src/Graph/Metadata.antt =====
-- packages/tekmemo/src/graph/filters/metadata-filter.ts. `stringify` is JSON.stringify on a value
-- that is not undefined, `sort_keys` the sort of the entries by their keys. A parsed value has no
-- cycles. A method that the metadata inherits from Object.prototype equals no value of a filter, as
-- undefined does, and leads to nothing further: `none` stands for both.
use tekbreed_oss.Prelude.{
  ℕ, ◌+◌, String, Bool, true, false, not, ◌&&◌, ◌||◌, Option, none, some, List, [], ◌∷◌, ◌==◌, leb,
  ltb, if◌then◌else◌,
}
use tekbreed_oss.Prelude.Codes.{codes, contains, split_dots}
use tekbreed_oss.Prelude.Json.{Json, Items, Fields, field_of}

-- the length of a text in UTF-16 code units
abbrev units : List ℕ → ℕ
units [] = 0
units (c ∷ cs) = (if ltb c 65536 then 1 else 2) + units cs

abbrev unsafe_part : String → Bool
unsafe_part part = part == "__proto__" || part == "prototype" || part == "constructor" || part == ""

abbrev some_unsafe : List String → Bool
some_unsafe [] = false
some_unsafe (part ∷ parts) = unsafe_part part || some_unsafe parts

-- isSafeFilterPath
unfoldable pub is_safe_filter_path : String → Bool
is_safe_filter_path path =
    not (path == "") && leb (units (codes path)) 512 && not (some_unsafe (split_dots path))

abbrev field_count : Fields → ℕ
field_count Fields.end = 0
field_count (Fields.field key v fs) = 1 + field_count fs

abbrev every_safe : Fields → Bool
every_safe Fields.end = true
every_safe (Fields.field key v fs) = is_safe_filter_path key && every_safe fs

-- isSafeFilter
unfoldable pub is_safe_filter : Fields → Bool
is_safe_filter fs = leb (field_count fs) 100 && every_safe fs

-- getByPath: the loop
abbrev get_along : Option Json → List String → Option Json
get_along current [] = current
get_along (some (Json.object fs)) (part ∷ parts) =
    let next = get_along (field_of fs part) parts in if is_safe_filter_path part then next else none
get_along current (part ∷ parts) = none

-- getByPath
unfoldable pub value_at : Fields → String → Option Json
value_at input path =
    if not (contains path ".")
    then field_of input path
    else get_along (some (Json.object input)) (split_dots path)

module _ (stringify : Json → String) (sort_keys : List String → List String) where
  abbrev keys_of : Fields → List String
  keys_of Fields.end = []
  keys_of (Fields.field key v fs) = key ∷ keys_of fs

  abbrev in_order : List String → Fields → Fields
  in_order [] fs = Fields.end
  in_order (key ∷ keys) fs =
      let rest = in_order keys fs in
      elim (field_of fs key) [ none ↦ rest | some v ↦ Fields.field key v rest ]

  -- normalizeForComparison; `none` is the error thrown below the greatest depth
  unfoldable mutual
    pub normalize_for_comparison : Json → ℕ → Option Json
    normalize_for_comparison (Json.array xs) depth =
        let items = normalize_items xs (depth + 1) in
        if ltb 12 depth then none else elim items [ none ↦ none | some ys ↦ some (Json.array ys) ]
    normalize_for_comparison (Json.object fs) depth =
        let fields = normalize_fields fs (depth + 1) in
        if ltb 12 depth then none else elim fields [
          | none ↦ none
          | some gs ↦ some (Json.object (in_order (sort_keys (keys_of fs)) gs))
        ]
    normalize_for_comparison v depth = if ltb 12 depth then none else some v

    pub normalize_items : Items → ℕ → Option Items
    normalize_items Items.nil depth = some Items.nil
    normalize_items (Items.cons x xs) depth =
        let rest = normalize_items xs depth in
        elim (normalize_for_comparison x depth) [
          | none ↦ none
          | some y ↦ elim rest [ none ↦ none | some ys ↦ some (Items.cons y ys) ]
        ]

    pub normalize_fields : Fields → ℕ → Option Fields
    normalize_fields Fields.end depth = some Fields.end
    normalize_fields (Fields.field key x fs) depth =
        let rest = normalize_fields fs depth in
        elim (normalize_for_comparison x depth) [
          | none ↦ none
          | some y ↦ elim rest [ none ↦ none | some gs ↦ some (Fields.field key y gs) ]
        ]

  -- `stableStringify(actual) === stableStringify(expected)`, false where one of them throws
  abbrev same_text : Option Json → Option Json → Bool
  same_text (some a) (some b) = stringify a == stringify b
  same_text _ _ = false

  -- valuesEqual, on a value that is not undefined
  unfoldable mutual
    pub values_equal : Json → Json → Bool
    values_equal (Json.array xs) expected = some_equal xs expected
    values_equal actual expected =
        same_text (normalize_for_comparison actual 0) (normalize_for_comparison expected 0)

    pub some_equal : Items → Json → Bool
    some_equal Items.nil expected = false
    some_equal (Items.cons x xs) expected = values_equal x expected || some_equal xs expected

  abbrev value_equals : Option Json → Json → Bool
  value_equals none expected = false
  value_equals (some actual) expected = values_equal actual expected

  abbrev equals_some : Option Json → Items → Bool
  equals_some actual Items.nil = false
  equals_some actual (Items.cons x xs) = value_equals actual x || equals_some actual xs

  abbrev meets : Option Json → Json → Bool
  meets actual (Json.array xs) = equals_some actual xs
  meets actual expected = value_equals actual expected

  -- matchesMetadataFilter: the loop over the entries of the filter
  unfoldable pub meets_all : Fields → Fields → Bool
  meets_all metadata Fields.end = true
  meets_all metadata (Fields.field key expected fs) =
      is_safe_filter_path key && meets (value_at metadata key) expected && meets_all metadata fs

  -- matchesMetadataFilter
  unfoldable pub matches_metadata_filter : Option Fields → Option Fields → Bool
  matches_metadata_filter metadata none = true
  matches_metadata_filter metadata (some Fields.end) = true
  matches_metadata_filter none (some filter) = false
  matches_metadata_filter (some metadata) (some filter) =
      is_safe_filter filter && meets_all metadata filter
