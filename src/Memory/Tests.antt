-- ===== src/Memory/Tests.antt =====
-- Reading a log file of three lines, one of them blank and one malformed.
use tekbreed_oss.Prelude.{
  true, ◌+◌, String, ◌≡◌, Option, none, some, List, [], ◌∷◌, ◌==◌, if◌then◌else◌, length,
}
use tekbreed_oss.Prelude.Json.{Json}
use tekbreed_oss.Prelude.Result.{ok}
use tekbreed_oss.Memory.Records.{ParseJsonlResult, MalformedJsonlMode, parse_jsonl}
use tekbreed_oss.Memory.Jsonl.{strict, parse_jsonl_lem}

abbrev split : String → List String
split s = "true" ∷ "" ∷ "{" ∷ []

abbrev trim : String → String
trim s = s

abbrev json_parse : String → Option Json
json_parse s = if s == "true" then some (Json.boolean true) else none

abbrev keep : Json → Option Json
keep v = some v

parse_jsonl_lem_example :
    (r : ParseJsonlResult Json) × (parse_jsonl split trim json_parse keep MalformedJsonlMode.skip
        "log"
      ≡ ok r)
    × (r.entries ≡ Json.boolean true ∷ [])
    × (length r.entries + length r.issues ≡ 2)
    × (parse_jsonl split trim json_parse keep MalformedJsonlMode.throws "log"
        ≡ strict split trim json_parse keep (ok r))
parse_jsonl_lem_example = parse_jsonl_lem split trim json_parse keep "log"
