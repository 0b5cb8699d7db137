-- ===== src/Recall/Conditions.antt =====
-- validateRecallFilter of packages/tekmemo/src/recall/validation/assertions.ts.
use tekbreed_oss.Prelude.{String, Bool, false, ◌||◌, ◌==◌, if◌then◌else◌}
use tekbreed_oss.Prelude.Codes.{codes, starts_with}
use tekbreed_oss.Prelude.Json.{Json, Fields}
use tekbreed_oss.Prelude.Number.{is_finite}
use tekbreed_oss.Prelude.Result.{ok, throw, ◌>>◌}
use tekbreed_oss.Recall.Validation.{
  Checked, check, key_code, matches_pattern, validation, assert_safe_object_key, assert_json_value,
  assert_json_items,
}

-- Object.keys(value).some((key) => key.startsWith("$"))
abbrev pub has_operator : Fields → Bool
has_operator Fields.end = false
has_operator (Fields.field key v fs) = starts_with key "$" || has_operator fs

-- isOperatorObject
unfoldable pub is_operator_object : Json → Bool
is_operator_object (Json.object fs) = has_operator fs
is_operator_object _ = false

abbrev assert_array : Json → Checked (Unit {0})
assert_array (Json.array xs) = assert_json_items xs
assert_array _ = throw validation

abbrev assert_number : Json → Checked (Unit {0})
assert_number (Json.number n) = check (is_finite n)
assert_number _ = throw validation

abbrev assert_boolean : Json → Checked (Unit {0})
assert_boolean (Json.boolean b) = ok tt
assert_boolean _ = throw validation

abbrev assert_primitive : Json → Checked (Unit {0})
assert_primitive (Json.array xs) = throw validation
assert_primitive (Json.object fs) = throw validation
assert_primitive _ = ok tt

-- the `switch` of validateFilterValue
unfoldable pub validate_operand : String → Json → Checked (Unit {0})
validate_operand operator operand =
    if operator == "$eq" || operator == "$ne"
    then assert_json_value operand
    else if operator == "$in" || operator == "$nin"
    then assert_array operand
    else if operator == "$gt" || operator == "$gte" || operator == "$lt" || operator == "$lte"
    then assert_number operand
    else if operator == "$exists"
    then assert_boolean operand
    else if operator == "$contains"
    then assert_primitive operand
    else throw validation

abbrev validate_operator : Fields → Checked (Unit {0})
validate_operator (Fields.field operator operand Fields.end) = validate_operand operator operand
validate_operator _ = throw validation

-- validateFilterValue
unfoldable pub validate_filter_value : Json → Checked (Unit {0})
validate_filter_value (Json.object fs) =
    if has_operator fs then validate_operator fs else assert_json_value (Json.object fs)
validate_filter_value v = assert_json_value v

-- validateRecallFilter; a valid filter comes back as it is
unfoldable pub validate_recall_filter : Fields → Checked (Unit {0})
validate_recall_filter Fields.end = ok tt
validate_recall_filter (Fields.field key item fs) =
    assert_safe_object_key key
    >> check (matches_pattern key_code (codes key))
    >> validate_filter_value item
    >> validate_recall_filter fs
