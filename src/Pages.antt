-- ===== src/Pages.antt =====
-- packages/tekmemo-mcp-server/src/utils/pagination.ts: a page of a list, with a cursor to the next
-- one. A number that is no integer is `nan`. JSON.parse, JSON.stringify, btoa, atob (which may
-- throw), the text codecs and replaceAll, padEnd and length of strings are the language's.
pub mod Resume
mod Tests
use tekbreed_oss.Prelude.{
  ℕ, zero, suc, ◌+◌, ◌*◌, ◌/◌, String, Bool, true, false, ◌||◌, not, Option, none, some, List, [],
  ◌∷◌, ◌==◌, ltb, if◌then◌else◌, length, take, drop,
}
use tekbreed_oss.Prelude.Json.{Json, Fields, field_of}
use tekbreed_oss.Prelude.Number.{JsNumber, pos, negsuc}
use tekbreed_oss.Prelude.Result.{Result, ok, throw, ◌>>=◌}

-- McpValidationError, by its message
pub data PageError : Type 0 where
  limit_not_integer limit_too_small limit_too_large cursor_too_long cursor_invalid : PageError

pub record PaginationOptions : Type 0 where
  pub cursor : Option String
  pub limit : Option Json
  pub default_limit : ℕ
  pub max_limit : ℕ

pub record Page (A : Type 0) : Type 0 where
  pub items : List A
  pub next_cursor : Option String

-- normalizeLimit
unfoldable pub normalize_limit : Option Json → ℕ → ℕ → Result PageError ℕ
normalize_limit none default_limit max_limit = ok default_limit
normalize_limit (some (Json.number (pos n))) default_limit max_limit =
    if ltb n 1
    then throw limit_too_small
    else if ltb max_limit n
    then throw limit_too_large
    else ok n
normalize_limit (some (Json.number (negsuc n))) default_limit max_limit = throw limit_too_small
normalize_limit (some _) default_limit max_limit = throw limit_not_integer

-- `data.v !== 1` and `data.namespace !== namespace`
abbrev pub is_one : Option Json → Bool
is_one (some (Json.number (pos (suc zero)))) = true
is_one _ = false

abbrev pub is_text : Option Json → String → Bool
is_text (some (Json.text s)) t = s == t
is_text _ t = false

-- `data.offset`, where it is an integer that is not negative
abbrev pub offset_of : Option Json → Result PageError ℕ
offset_of (some (Json.number (pos n))) = ok n
offset_of _ = throw cursor_invalid

-- the checks of decodeCursor on what it parsed
unfoldable pub read_cursor : Option Json → String → Result PageError ℕ
read_cursor (some (Json.object fields)) namespace =
    if not (is_one (field_of fields "v")) || not (is_text (field_of fields "namespace") namespace)
    then throw cursor_invalid
    else offset_of (field_of fields "offset")
read_cursor _ namespace = throw cursor_invalid

module _ (parse : String → Option Json) (stringify : Json → String) (btoa : String → String)
    (atob : String → Option String) (to_binary from_binary : String → String)
    (replace_all : String → String → String → String) (pad_end : String → ℕ → String → String)
    (units : String → ℕ) where
  -- encodeBase64Url
  unfoldable pub encode_base64_url : String → String
  encode_base64_url value =
      replace_all (replace_all (replace_all (btoa (to_binary value)) "+" "-") "/" "_") "=" ""

  abbrev from_atob : Option String → Option String
  from_atob none = none
  from_atob (some binary) = some (from_binary binary)

  -- decodeBase64Url
  unfoldable pub decode_base64_url : String → Option String
  decode_base64_url value = from_atob (
      atob
        (pad_end (replace_all (replace_all value "-" "+") "_" "/") ((units value + 3) / 4 * 4) "="))

  -- encodeCursor, on an offset that is an integer and not negative
  unfoldable pub encode_cursor : ℕ → String → String
  encode_cursor offset namespace = encode_base64_url (
      stringify (
        Json.object (
          Fields.field "v" (Json.number (pos 1)) (
            Fields.field "namespace" (Json.text namespace)
              (Fields.field "offset" (Json.number (pos offset)) Fields.end)))))

  abbrev parsed : Option String → Option Json
  parsed none = none
  parsed (some s) = parse s

  -- decodeCursor
  unfoldable pub decode_cursor : Option String → String → Result PageError ℕ
  decode_cursor none namespace = ok 0
  decode_cursor (some cursor) namespace =
      if cursor == ""
      then ok 0
      else if ltb 512 (units cursor)
      then throw cursor_too_long
      else read_cursor (parsed (decode_base64_url cursor)) namespace

  -- the page of paginateArray from an offset
  unfoldable pub page_at : {A : Type 0} → List A → ℕ → ℕ → String → Page A
  page_at items limit offset namespace =
      let page_items = take limit (drop offset items) in
      let next_offset = offset + length page_items in
      record {
        items = page_items;
        next_cursor =
            if ltb next_offset (length items)
            then some (encode_cursor next_offset namespace)
            else none;
      }

  -- paginateArray
  unfoldable pub paginate_array :
      {A : Type 0} → List A → PaginationOptions → String → Result PageError (Page A)
  paginate_array items options namespace = do
    limit ← normalize_limit options.limit options.default_limit options.max_limit
    offset ← decode_cursor options.cursor namespace
    ok (page_at items limit offset namespace)
