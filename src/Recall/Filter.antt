-- ===== src/Recall/Filter.antt =====
-- packages/tekmemo/src/recall/filters/filter-match.ts. `stringify` is JSON.stringify on a value that
-- is not undefined, `sort_keys` the sort of `Object.keys(value)`. A read of a property that an
-- object has not itself goes to Object.prototype, whose properties are those of the language.
use tekbreed_oss.Prelude.{
  String, Bool, true, false, not, ◌&&◌, ◌||◌, Option, none, some, List, [], ◌∷◌, ◌==◌, ltb, eqb,
  if◌then◌else◌, includes,
}
use tekbreed_oss.Prelude.Codes.{contains, split_dots}
use tekbreed_oss.Prelude.Json.{Json, Items, Fields, field_of}
use tekbreed_oss.Prelude.Number.{JsNumber, nan, infinity, neg_infinity, pos, negsuc}
use tekbreed_oss.Prelude.Result.{ok, ◌>>◌}
use tekbreed_oss.Recall.Validation.{Checked}
use tekbreed_oss.Recall.Conditions.{has_operator, validate_recall_filter}

-- `a < b` on numbers
unfoldable pub number_lt : JsNumber → JsNumber → Bool
number_lt nan _ = false
number_lt _ nan = false
number_lt infinity _ = false
number_lt _ neg_infinity = false
number_lt neg_infinity _ = true
number_lt _ infinity = true
number_lt (pos a) (pos b) = ltb a b
number_lt (pos a) (negsuc b) = false
number_lt (negsuc a) (pos b) = true
number_lt (negsuc a) (negsuc b) = ltb b a

-- `===` on numbers
unfoldable pub number_eq : JsNumber → JsNumber → Bool
number_eq infinity infinity = true
number_eq neg_infinity neg_infinity = true
number_eq (pos a) (pos b) = eqb a b
number_eq (negsuc a) (negsuc b) = eqb a b
number_eq _ _ = false

-- What a read of metadata gives: undefined, a JSON value, a method of Object.prototype, or
-- Object.prototype itself.
pub data Value : Type 0 where
  undefined method prototype : Value
  json : Json → Value

-- `typeof actual === "number" && typeof operand === "number" && test(actual, operand)`
abbrev both_numbers : (JsNumber → JsNumber → Bool) → Value → Json → Bool
both_numbers test (json (Json.number a)) (Json.number b) = test a b
both_numbers test _ _ = false

-- `Boolean(operand)`
abbrev is_truthy : Json → Bool
is_truthy Json.null = false
is_truthy (Json.boolean b) = b
is_truthy (Json.number n) = not (number_eq n (pos 0)) && not (is_nan n)
  where
    is_nan : JsNumber → Bool
    is_nan nan = true
    is_nan _ = false
is_truthy (Json.text s) = not (s == "")
is_truthy _ = true

-- the methods that every object inherits, the constructor among them
abbrev method_names : List String
method_names =
    "constructor" ∷ "hasOwnProperty" ∷ "isPrototypeOf" ∷ "propertyIsEnumerable" ∷ "toLocaleString"
    ∷ "toString" ∷ "valueOf" ∷ "__defineGetter__" ∷ "__defineSetter__" ∷ "__lookupGetter__"
    ∷ "__lookupSetter__" ∷ []

-- A property of Object.prototype other than `__proto__`.
abbrev method_at : String → Value
method_at key = if includes method_names key then method else undefined

-- `value[key]` on an object of JSON
abbrev property : Fields → String → Value
property fs key = elim (field_of fs key) [
  | some v ↦ json v
  | none ↦ if key == "__proto__" then prototype else method_at key
]

-- getByPath: the step of its reduce
abbrev get_part : Value → String → Value
get_part (json (Json.object fs)) part = property fs part
get_part prototype part = if part == "__proto__" then json Json.null else method_at part
get_part _ part = undefined

abbrev get_parts : Value → List String → Value
get_parts current [] = current
get_parts current (part ∷ parts) = get_parts (get_part current part) parts

unfoldable pub get_by_path : Fields → String → Value
unfolding includes
get_by_path value key =
    if not (contains key ".")
    then property value key
    else get_parts (json (Json.object value)) (split_dots key)

module _ (stringify : Json → String) (sort_keys : List String → List String) where
  abbrev names : Fields → List String
  names Fields.end = []
  names (Fields.field key v fs) = key ∷ names fs

  -- `output[key] = ...` for each key, where a write to `__proto__` makes no key
  abbrev pick : List String → Fields → Fields
  pick [] fs = Fields.end
  pick (key ∷ keys) fs =
      let rest = pick keys fs in
      if key == "__proto__"
      then rest
      else elim (field_of fs key) [ none ↦ rest | some v ↦ Fields.field key v rest ]

  -- stable
  unfoldable mutual
    pub stable : Json → Json
    stable (Json.array xs) = Json.array (stable_items xs)
    stable (Json.object fs) =
        let values = stable_fields fs in Json.object (pick (sort_keys (names fs)) values)
    stable v = v

    pub stable_items : Items → Items
    stable_items Items.nil = Items.nil
    stable_items (Items.cons x xs) = Items.cons (stable x) (stable_items xs)

    pub stable_fields : Fields → Fields
    stable_fields Fields.end = Fields.end
    stable_fields (Fields.field key v fs) = Fields.field key (stable v) (stable_fields fs)

  -- deepEqual: JSON.stringify gives undefined for undefined and for a function, and Object.prototype
  -- has no keys that are listed
  unfoldable pub deep_equal : Value → Json → Bool
  deep_equal (json a) b = stringify (stable a) == stringify (stable b)
  deep_equal prototype b = stringify (Json.object Fields.end) == stringify (stable b)
  deep_equal _ b = false

  -- `operand.some((item) => deepEqual(actual, item))`
  abbrev some_equal : Value → Items → Bool
  some_equal actual Items.nil = false
  some_equal actual (Items.cons x xs) = deep_equal actual x || some_equal actual xs

  abbrev is_in : Value → Json → Bool
  is_in actual (Json.array xs) = some_equal actual xs
  is_in actual _ = false

  abbrev is_not_in : Value → Json → Bool
  is_not_in actual (Json.array xs) = not (some_equal actual xs)
  is_not_in actual _ = false

  abbrev some_item_equal : Items → Json → Bool
  some_item_equal Items.nil expected = false
  some_item_equal (Items.cons x xs) expected =
      deep_equal (json x) expected || some_item_equal xs expected

  -- contains
  unfoldable pub contains_value : Value → Json → Bool
  contains_value (json (Json.text s)) (Json.text t) = contains s t
  contains_value (json (Json.array xs)) expected = some_item_equal xs expected
  contains_value _ _ = false

  abbrev exists : Value → Bool
  exists undefined = false
  exists _ = true

  -- the `switch` of matchesFilterValue
  unfoldable pub matches_operator : Value → String → Json → Bool
  matches_operator actual operator operand =
      if operator == "$eq"
      then deep_equal actual operand
      else if operator == "$ne"
      then not (deep_equal actual operand)
      else if operator == "$in"
      then is_in actual operand
      else if operator == "$nin"
      then is_not_in actual operand
      else if operator == "$gt"
      then both_numbers (λ a b. number_lt b a) actual operand
      else if operator == "$gte"
      then both_numbers (λ a b. number_lt b a || number_eq a b) actual operand
      else if operator == "$lt"
      then both_numbers number_lt actual operand
      else if operator == "$lte"
      then both_numbers (λ a b. number_lt a b || number_eq a b) actual operand
      else if operator == "$exists"
      then (if is_truthy operand then exists actual else not (exists actual))
      else if operator == "$contains"
      then contains_value actual operand
      else false

  abbrev first_operator : Value → Fields → Bool
  first_operator actual Fields.end = false
  first_operator actual (Fields.field operator operand fs) =
      matches_operator actual operator operand

  -- matchesFilterValue
  unfoldable pub matches_filter_value : Value → Json → Bool
  matches_filter_value actual (Json.object fs) =
      if has_operator fs then first_operator actual fs else deep_equal actual (Json.object fs)
  matches_filter_value actual expected = deep_equal actual expected

  -- the loop over the entries of the filter
  unfoldable pub matches_entries : Fields → Fields → Bool
  matches_entries metadata Fields.end = true
  matches_entries metadata (Fields.field key expected fs) =
      matches_filter_value (get_by_path metadata key) expected && matches_entries metadata fs

  -- matchesRecallFilter
  unfoldable pub matches_recall_filter : Fields → Option Fields → Checked Bool
  matches_recall_filter metadata none = ok true
  matches_recall_filter metadata (some filter) = do
    validate_recall_filter filter
    ok (matches_entries metadata filter)
