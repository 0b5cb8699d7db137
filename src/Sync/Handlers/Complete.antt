-- ===== src/Sync/Handlers/Complete.antt =====
-- A completed push: what was checked before the lock, and what the lock guards.
use tekbreed_oss.Prelude.{
  ℕ, ◌≤◌, String, ◌≡◌, refl, ap, ◌∙◌, inl, inr, Option, some, List, [], ◌∷◌, map, arith, eq_iff,
  All, Option-cases,
}
use mathlib.Core.Path.{subst}
use tekbreed_oss.Prelude.Json.{Json, field_of}
use tekbreed_oss.Prelude.Number.{JsNumber}
use tekbreed_oss.Prelude.Result.{ok, >>=-eq-ok, ok-injective}
use tekbreed_oss.Sync.Tables.{Project, Db}
use tekbreed_oss.Sync.Manifest.{Target, Verified, load_cloud_manifest, projected_storage_bytes}
use tekbreed_oss.Sync.Commit.{load_project, assert_owns}
use tekbreed_oss.Sync.Blobs.{Blob, verify_all, verify_uploaded, buffer_to_hex}
use tekbreed_oss.Sync.Requests.{read_json_object, parse_uploaded}
use tekbreed_oss.Sync.Handlers.{
  Account, Prepared, require_project_id, entitlement_gate, or_conflict, check_uploads, prepare,
}

module _ (digest : List ℕ → List ℕ) (blobs : String → Option Blob) where
  -- The bucket holds the bytes that the entry's digest names, and the entry has their size.
  abbrev pub IsStored : Verified → Type 0
  IsStored e =
      (b : Blob) × (blobs e.sha256 ≡ some b)
      × (buffer_to_hex (digest b.body) ≡ e.sha256)
      × (e.size_bytes ≡ b.size)
      × (e.r2_key ≡ e.sha256)

  pub verify_uploaded-eq_ok :
      (key sha : String) (n : ℕ)
      → verify_uploaded digest blobs key sha ≡ ok n
      → (b : Blob) × (blobs key ≡ some b) × (buffer_to_hex (digest b.body) ≡ sha) × (n ≡ b.size)
  unfolding verify_uploaded
  verify_uploaded-eq_ok key sha n h = elim (Option-cases (blobs key)) [
    | inl e ↦ absurd (ground arith)
    | inr (b, e) ↦ (b, e, ground (arith, eq_iff (buffer_to_hex (digest b.body)) sha), ground arith)
  ]

  -- If the uploads are verified, the verified entries are the requested paths and digests in
  -- order, and for each the bucket holds an object under its digest whose bytes hash to that
  -- digest and whose size is the entry's.
  pub verify_all-eq_ok :
      (uploaded : List Target) (verified : List Verified)
      → verify_all digest blobs uploaded ≡ ok verified
      → All IsStored verified × (map (λ (e : Verified). (e.path, e.sha256)) verified ≡ uploaded)
  unfolding verify_all
  verify_all-eq_ok [] verified h = subst Good (ok-injective h) (tt, refl)
    where
      Good : List Verified → Type 0
      Good v = All IsStored v × (map {B = Target} (λ (e : Verified). (e.path, e.sha256)) v ≡ [])
  verify_all-eq_ok ((path, sha) ∷ uploaded) verified h =
      let (size, checked, h₁) = >>=-eq-ok (verify_uploaded digest blobs sha sha) _ h in
      let (rest, more, h₂) = >>=-eq-ok (verify_all digest blobs uploaded) _ h₁ in
      let (stored, same) = verify_all-eq_ok uploaded rest more in
      let (b, found, hash, sized) = verify_uploaded-eq_ok sha sha size checked in
      subst Good (ok-injective h₂)
        (((b, found, hash, sized, refl), stored), ap (◌∷◌ (path, sha)) same)
    where
      Good : List Verified → Type 0
      Good v =
          All IsStored v
          × (map {B = Target} (λ (e : Verified). (e.path, e.sha256)) v ≡ (path, sha) ∷ uploaded)

module _ (trim : String → String) (show : ℕ → String) (number : String → JsNumber)
    (digest : List ℕ → List ℕ) (blobs : String → Option Blob) (db : Db) (account : Account)
    (project : String) where
  entitlement_gate-eq_ok :
      (p : Project) (verified : List Verified)
      → entitlement_gate trim show number digest blobs db account project p verified ≡ ok tt
      → projected_storage_bytes (load_cloud_manifest project db.project_files) verified
        ≤ account.max_hosted_storage_bytes
  unfolding entitlement_gate
  entitlement_gate-eq_ok p verified h = ground arith

  assert_owns-eq_ok : (p : Project) → assert_owns p account.id ≡ ok tt → p.account_id ≡ account.id
  unfolding assert_owns
  assert_owns-eq_ok p h = ground (arith, eq_iff p.account_id account.id)

  abbrev Passed : Prepared → Type 0
  Passed prepared =
      (p : Project) × (uploaded : List Target) × (load_project db project ≡ some p)
      × (p.account_id ≡ account.id)
      × (verify_all digest blobs uploaded ≡ ok prepared.verified)
      × (projected_storage_bytes (load_cloud_manifest project db.project_files) prepared.verified
          ≤ account.max_hosted_storage_bytes)

  -- What is known when `/push/complete` reaches the lock.
  pub prepare-eq_ok :
      (body : Option Json) (prepared : Prepared)
      → prepare trim show number digest blobs db account project body ≡ ok prepared
      → Passed prepared
  unfolding prepare check_uploads
  prepare-eq_ok body prepared h =
      let (_, _, h₁) = >>=-eq-ok (require_project_id trim project) _ h in
      let (fields, _, h₂) = >>=-eq-ok (read_json_object body) _ h₁ in
      let (uploaded, _, h₃) = >>=-eq-ok (parse_uploaded (field_of fields "uploaded")) _ h₂ in
      let (p, found, h₄) = >>=-eq-ok (or_conflict (load_project db project)) _ h₃ in
      let (_, owned, h₅) = >>=-eq-ok (assert_owns p account.id) _ h₄ in
      let (verified, checked, h₆) = >>=-eq-ok (verify_all digest blobs uploaded) _ h₅ in
      let (_, gate, h₇) =
        >>=-eq-ok (entitlement_gate trim show number digest blobs db account project p verified) _
          h₆ in
      let same : verified ≡ prepared.verified =
        ap (λ (r : Prepared). r.verified) (ok-injective h₇) in
      (
        p,
        uploaded,
        ground (arith),
        assert_owns-eq_ok p owned,
        checked ∙ ap ok same,
        subst
            (λ v.
              projected_storage_bytes (load_cloud_manifest project db.project_files) v
              ≤ account.max_hosted_storage_bytes)
            same (entitlement_gate-eq_ok p verified gate),
      )
