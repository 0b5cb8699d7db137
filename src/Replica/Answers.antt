-- ===== src/Replica/Answers.antt =====
-- What the server's answer to a pull holds for the client.
use tekbreed_oss.Prelude.{ℕ, String, ◌≡◌, refl, sym, ap, ◌∙◌, some, List, [], ◌∷◌, map, get_or}
use mathlib.Core.Path.{subst}
use tekbreed_oss.Prelude.Json.{Json, Fields, field_of}
use tekbreed_oss.Prelude.Number.{JsNumber}
use tekbreed_oss.Prelude.Result.{Result, ok, >>=-eq-ok, ok-injective}
use tekbreed_oss.JsMap.{JsMap, Distinct}
use tekbreed_oss.JsMap.Bulk.{Distinct-set_all}
use tekbreed_oss.Sync.Tables.{Db, Project, FileRow, files_of}
use tekbreed_oss.Sync.Manifest.{
  CloudFileManifest, FileManifest, Target, diff_pull_targets, diff_removed, load_cloud_manifest,
  cloud_file, own_entries,
}
use tekbreed_oss.Sync.Commit.{ApiError, load_project, assert_owns}
use tekbreed_oss.Sync.Blobs.{presign_many}
use tekbreed_oss.Sync.Requests.{read_json_object, parse_optional_manifest}
use tekbreed_oss.Sync.Handlers.{PullFile, PullResponse, Account, get_target, require_project_id}
use tekbreed_oss.Sync.Handlers as Server

abbrev pub target_of : PullFile → Target
target_of t = (t.path, t.sha256)

-- What the server answers to a client's manifest: the differences with its own.
pub record Answers (response : PullResponse) (manifest : FileManifest) : Type 0 where
  pub files : map target_of response.files ≡ diff_pull_targets response.manifest manifest
  pub removed : response.removed ≡ diff_removed manifest response.manifest
  pub distinct : Distinct response.manifest

map-target_of :
    (cloud : CloudFileManifest) (urls : JsMap String) (targets : List Target)
    → map target_of (map (get_target cloud urls) targets) ≡ targets
map-target_of cloud urls [] = refl
map-target_of cloud urls (t ∷ targets) = ap (◌∷◌ t) (map-target_of cloud urls targets)

Distinct-load_cloud_manifest :
    (project : String) (rows : List FileRow) → Distinct (load_cloud_manifest project rows)
unfolding load_cloud_manifest
Distinct-load_cloud_manifest project rows =
    Distinct-set_all [] (own_entries (map (λ r. (r.path, cloud_file r)) (files_of project rows))) tt

module _ (trim : String → String) (show : ℕ → String) (number : String → JsNumber)
    (sign : String → Result ApiError String) where
  -- The answer of POST /pull on a project that exists, to a body with the manifest.
  pub pull-Answers :
      (db : Db) (account : Account) (project : String) (fields : Fields) (manifest : FileManifest)
      (p : Project) (response : PullResponse)
      → load_project db project ≡ some p
      → parse_optional_manifest (field_of fields "manifest") ≡ ok (some manifest)
      → Server.pull trim show number sign db account project (some (Json.object fields))
        ≡ ok response
      → Answers response manifest
  unfolding Server.pull read_json_object
  pull-Answers db account project fields manifest p response there sent answered =
      let (_, _, h₁) = >>=-eq-ok (require_project_id trim project) _ answered in
      let (client, parsed, h₂) =
        >>=-eq-ok (parse_optional_manifest (field_of fields "manifest")) _ h₁ in
      let same : client ≡ some manifest = ok-injective (sym parsed ∙ sent) in
      let (_, _, h₃) = >>=-eq-ok (assert_owns p account.id) _ (rw there at h₂) in
      let targets =
        diff_pull_targets (load_cloud_manifest project db.project_files) (get_or client []) in
      let (urls, _, last) = >>=-eq-ok (presign_many sign (map (λ t. t.1) targets)) _ h₃ in
      subst (λ (r : PullResponse). Answers r manifest) (ok-injective last)
        (record {
          files =
              map-target_of (load_cloud_manifest project db.project_files) urls targets
              ∙ ap
                  (λ o.
                    diff_pull_targets (load_cloud_manifest project db.project_files) (get_or o []))
                  same;
          removed =
              ap (λ o. diff_removed (get_or o []) (load_cloud_manifest project db.project_files))
                same;
          distinct = Distinct-load_cloud_manifest project db.project_files;
        })
