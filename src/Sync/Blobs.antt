-- ===== src/Sync/Blobs.antt =====
-- The bucket's objects: verifyUploaded of apps/cloud/src/api/sync/shared.ts and presignMany of
-- apps/cloud/src/api/r2-presign.ts. The bucket, the digest (Web Crypto's SHA-256) and the signing
-- of one URL are parameters.
use Prim.Native.String.{◌++◌ as append}
use tekbreed_oss.Prelude.{
  ℕ, zero, suc, ◌/◌, ◌%◌, String, Option, none, some, List, [], ◌∷◌, ◌==◌, if◌then◌else◌,
}
use tekbreed_oss.Prelude.Result.{Result, ok, throw, ◌>>=◌}
use tekbreed_oss.JsMap
use tekbreed_oss.JsMap.{JsMap}
use tekbreed_oss.Sync.Manifest.{Target, Verified}
use tekbreed_oss.Sync.Commit.{ApiError, not_uploaded, sha256_mismatch}

-- An R2 object: its bytes, and the size that the bucket reports.
pub record Blob : Type 0 where
  pub body : List ℕ
  pub size : ℕ

abbrev digit_at : List String → ℕ → String
digit_at [] n = ""
digit_at (d ∷ ds) zero = d
digit_at (d ∷ ds) (suc n) = digit_at ds n

-- `n.toString(16)` for n below 16
abbrev hex_digit : ℕ → String
hex_digit = digit_at (
    "0" ∷ "1" ∷ "2" ∷ "3" ∷ "4" ∷ "5" ∷ "6" ∷ "7" ∷ "8" ∷ "9" ∷ "a" ∷ "b" ∷ "c" ∷ "d" ∷ "e" ∷ "f"
    ∷ [])

-- bufferToHex
unfoldable pub buffer_to_hex : List ℕ → String
buffer_to_hex [] = ""
buffer_to_hex (b ∷ bytes) =
    append (append (hex_digit (b / 16)) (hex_digit (b % 16))) (buffer_to_hex bytes)

module _ (digest : List ℕ → List ℕ) (blobs : String → Option Blob) where
  -- verifyUploaded
  unfoldable pub verify_uploaded : String → String → Result ApiError ℕ
  verify_uploaded r2_key sha256 = elim (blobs r2_key) [
    | none ↦ throw (not_uploaded r2_key)
    | some obj ↦
        let actual_hex = buffer_to_hex (digest obj.body) in
        if actual_hex == sha256 then ok obj.size else throw (sha256_mismatch sha256 actual_hex)
  ]

  -- the loop of `/push/complete` over the uploaded entries
  unfoldable pub verify_all : List Target → Result ApiError (List Verified)
  verify_all [] = ok []
  verify_all ((path, sha) ∷ uploaded) = do
    size ← verify_uploaded sha sha
    rest ← verify_all uploaded
    ok (record { path = path; sha256 = sha; r2_key = sha; size_bytes = size } ∷ rest)

-- presignMany: one URL for each key; `sign` is `presign` with its configuration
unfoldable pub presign_many :
    (String → Result ApiError String) → List String → Result ApiError (JsMap String)
presign_many sign [] = ok []
presign_many sign (key ∷ keys) = do
  url ← sign key
  rest ← presign_many sign keys
  ok (JsMap.set rest key url)
