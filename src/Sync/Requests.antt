-- ===== src/Sync/Requests.antt =====
-- The request bodies of the sync routes (apps/cloud/src/api/sync/index.ts): the server's own
-- checks on what a client sends. `none` stands for undefined.
use Prim.Native.Nat.{ℕ}
use tekbreed_oss.Prelude.{
  ℕ, String, Bool, true, ◌&&◌, ◌||◌, Option, none, some, List, [], ◌∷◌, ◌==◌, leb, eqb,
  if◌then◌else◌, length,
}
use tekbreed_oss.Prelude.Codes.{codes}
use tekbreed_oss.Prelude.Json.{Json, Items, Fields, field_of}
use tekbreed_oss.Prelude.Result.{Result, ok, throw, ◌>>=◌}
use tekbreed_oss.Sync.Manifest.{FileManifest, Target, set_own}
use tekbreed_oss.Sync.Commit.{ApiError, validation}

-- [a-f0-9]
unfoldable pub is_hex : ℕ → Bool
is_hex c = (leb b'a' c && leb c b'f') || (leb b'0' c && leb c b'9')

abbrev all_hex : List ℕ → Bool
all_hex [] = true
all_hex (c ∷ cs) = is_hex c && all_hex cs

-- SHA256_PATTERN: /^[a-f0-9]{64}$/
unfoldable pub is_sha256 : String → Bool
unfolding is_hex
is_sha256 s = eqb (length (codes s)) 64 && all_hex (codes s)

-- readJsonObject: `none` is a body that is not JSON
unfoldable pub read_json_object : Option Json → Result ApiError Fields
read_json_object (some (Json.object fs)) = ok fs
read_json_object _ = throw validation

-- one entry of parseManifest's loop
unfoldable pub manifest_sha : String → Json → Result ApiError String
manifest_sha path (Json.text sha) =
    if path == "" then throw validation else if is_sha256 sha then ok sha else throw validation
manifest_sha path _ = throw validation

unfoldable pub manifest_entries : FileManifest → Fields → Result ApiError FileManifest
manifest_entries out Fields.end = ok out
manifest_entries out (Fields.field path v fs) = elim (manifest_sha path v) [
  | ok sha ↦ manifest_entries (set_own out path sha) fs
  | throw e ↦ throw e
]

-- parseManifest
unfoldable pub parse_manifest : Option Json → Result ApiError FileManifest
parse_manifest (some (Json.object fs)) = manifest_entries [] fs
parse_manifest _ = throw validation

-- parseOptionalManifest
unfoldable pub parse_optional_manifest : Option Json → Result ApiError (Option FileManifest)
parse_optional_manifest none = ok none
parse_optional_manifest (some Json.null) = ok none
parse_optional_manifest v = elim (parse_manifest v) [ ok m ↦ ok (some m) | throw e ↦ throw e ]

-- one entry of parseUploaded's loop
unfoldable pub uploaded_target : Option Json → Option Json → Result ApiError Target
uploaded_target (some (Json.text path)) (some (Json.text sha)) =
    if path == ""
    then throw validation
    else if is_sha256 sha
    then ok (path, sha)
    else throw validation
uploaded_target _ _ = throw validation

unfoldable pub uploaded_entry : Json → Result ApiError Target
uploaded_entry (Json.object fs) = uploaded_target (field_of fs "path") (field_of fs "sha256")
uploaded_entry _ = throw validation

unfoldable pub uploaded_entries : Items → Result ApiError (List Target)
uploaded_entries Items.nil = ok []
uploaded_entries (Items.cons v vs) = do t ← uploaded_entry v; ts ← uploaded_entries vs; ok (t ∷ ts)

-- parseUploaded
unfoldable pub parse_uploaded : Option Json → Result ApiError (List Target)
parse_uploaded (some (Json.array vs)) = uploaded_entries vs
parse_uploaded _ = throw validation

-- `typeof v === "string" ? v : undefined`
abbrev pub text_of : Option Json → Option String
text_of (some (Json.text s)) = some s
text_of _ = none
