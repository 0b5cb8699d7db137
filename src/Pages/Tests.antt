-- ===== src/Pages/Tests.antt =====
-- A page of pagination.ts, with simple stand-ins for the language's functions.
use tekbreed_oss.Prelude.{
  ℕ, ◌+◌, ◌-◌, String, ◌≡◌, refl, Option, none, some, List, [], ◌∷◌, ◌++◌, ltb, length, drop,
  if◌then◌else◌,
}
use tekbreed_oss.Prelude.Json.{Json}
use tekbreed_oss.Prelude.Number.{pos}
use tekbreed_oss.Prelude.Result.{ok}
use tekbreed_oss.Pages.{
  PaginationOptions, Page, normalize_limit, decode_cursor, encode_cursor, paginate_array,
}
use tekbreed_oss.Pages.Resume.{at_most, paginate_array_resumes}

abbrev same : String → String
same s = s

abbrev keep : String → String → String → String
keep s a b = s

abbrev pad : String → ℕ → String → String
pad s n a = s

abbrev no_json : String → Option Json
no_json s = none

abbrev show : Json → String
show j = "json"

abbrev units : String → ℕ
units s = 4

abbrev options : PaginationOptions
options = record {
  cursor = none;
  limit = some (Json.number (pos 2));
  default_limit = 10;
  max_limit = 50;
}

abbrev items : List ℕ
items = 5 ∷ 6 ∷ 7 ∷ []

limit_taken : normalize_limit options.limit options.default_limit options.max_limit ≡ ok 2
unfolding normalize_limit
limit_taken = refl

start_taken : decode_cursor no_json show same some same same keep pad units none "page" ≡ ok 0
unfolding decode_cursor
start_taken = refl

paginate_array_resumes_example :
    (page : Page ℕ) × (next : ℕ) × (paginate_array no_json show same some same same keep pad units
        items options "page"
      ≡ ok page)
    × (next ≡ 0 + length page.items)
    × (length page.items ≡ at_most 2 (3 - 0))
    × (page.next_cursor ≡ (
        if ltb next 3
        then some (encode_cursor no_json show same some same same keep pad units next "page")
        else none))
    × (page.items ++ (if ltb next 3 then drop next items else []) ≡ items)
paginate_array_resumes_example =
    paginate_array_resumes no_json show same some same same keep pad units items options "page" 2 0
      limit_taken start_taken
