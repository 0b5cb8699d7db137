-- ===== src/Sync/Manifest/Diffs.antt =====
-- What the differences of two manifests contain.
use tekbreed_oss.Prelude.{
  String, ◌≡◌, refl, ap, ◌∙◌, false, not, ◌&&◌, Option, none, some, [], ◌∷◌, includes, arith,
  eq_iff, eq_refl, if◌then◌else◌, is_some, ◌==◌,
}
use tekbreed_oss.JsMap
use tekbreed_oss.JsMap.{JsMap, Distinct, get-delete, has, Distinct-delete}
use tekbreed_oss.JsMap.Bulk.{
  last_of, or_else, map_option, delete_all, set_all, get-delete_all, get-set_all,
  includes-filter-keys, map_values, set_all_nil, get-map_values, Distinct-map_values,
}
use tekbreed_oss.Sync.Manifest.{
  FileManifest, CloudFile, CloudFileManifest, differs, diff_push_targets, diff_pull_targets,
  diff_removed, cloud_manifest_to_local, own_entries,
}

-- The writes to a plain object keep every key but `__proto__`.
pub get-own_entries {ℓ} :
    {V : Type ℓ} (m : JsMap V) (path : String)
    → ("__proto__" == path) ≡ false
    → JsMap.get (own_entries m) path ≡ JsMap.get m path
get-own_entries m path e = rw (get-delete m "__proto__" path, e) refl

-- The digest that a manifest has for a path.
abbrev pub digest_at : CloudFileManifest → String → Option String
digest_at m path = map_option (λ (e : CloudFile). e.sha256) (JsMap.get m path)

pub get-cloud_manifest_to_local :
    (m : CloudFileManifest) (path : String)
    → Distinct m
    → ("__proto__" == path) ≡ false
    → JsMap.get (cloud_manifest_to_local m) path ≡ digest_at m path
unfolding cloud_manifest_to_local
get-cloud_manifest_to_local m path d e =
    let sha : CloudFile → String = λ x. x.sha256 in
    let entries = map_values sha m in
    ap (λ n. JsMap.get n path)
      (set_all_nil (own_entries entries)
        (Distinct-delete entries "__proto__" (Distinct-map_values sha m d)))
    ∙ get-own_entries entries path e
    ∙ get-map_values sha m path

-- What a diff lists for a path where one side has `want` and the other `have`.
abbrev pub listed : Option String → Option String → Option String
listed none have = none
listed (some sha) have = if differs have sha then some sha else none

last_of_absent :
    (client : FileManifest) (cloud : FileManifest) (path : String)
    → has client path ≡ false
    → last_of (diff_push_targets client cloud) path ≡ none
unfolding diff_push_targets last_of JsMap.get
last_of_absent [] cloud path h = refl
last_of_absent ((p, sha) ∷ client) cloud path h = ground (arith, last_of_absent client cloud path)

pub last_of-diff_push_targets :
    (client cloud : FileManifest) (path : String)
    → Distinct client
    → last_of (diff_push_targets client cloud) path
      ≡ listed (JsMap.get client path) (JsMap.get cloud path)
unfolding diff_push_targets last_of JsMap.get
last_of-diff_push_targets [] cloud path d = refl
last_of-diff_push_targets ((p, sha) ∷ client) cloud path d = ground (
  arith,
  last_of-diff_push_targets client cloud path d.1,
  last_of_absent client cloud p d.0,
  eq_iff p path,
)

-- No difference is left where every entry of the client is in the cloud's manifest.
pub diff_push_targets-nil :
    (client cloud : FileManifest)
    → Distinct client
    → ((path sha : String) → JsMap.get client path ≡ some sha → JsMap.get cloud path ≡ some sha)
    → diff_push_targets client cloud ≡ []
unfolding diff_push_targets JsMap.get
diff_push_targets-nil [] cloud d h = refl
diff_push_targets-nil ((p, sha) ∷ client) cloud d h =
    let rest : diff_push_targets client cloud ≡ [] =
      diff_push_targets-nil client cloud d.1
        (λ path s e. h path s (ground (arith, d.0, eq_iff p path))) in
    ground (arith, rest, h p sha (ground (arith, eq_refl p)), eq_refl sha)

-- A pull's difference is a push's, taken the other way.
diff_pull-eq-diff_push :
    (cloud : CloudFileManifest) (client : FileManifest)
    → diff_pull_targets cloud client
      ≡ diff_push_targets (map_values (λ (e : CloudFile). e.sha256) cloud) client
unfolding diff_pull_targets diff_push_targets map_values
diff_pull-eq-diff_push [] client = refl
diff_pull-eq-diff_push ((p, e) ∷ cloud) client = ground (arith, diff_pull-eq-diff_push cloud client)

pub last_of-diff_pull_targets :
    (cloud : CloudFileManifest) (client : FileManifest) (path : String)
    → Distinct cloud
    → last_of (diff_pull_targets cloud client) path
      ≡ listed (digest_at cloud path) (JsMap.get client path)
last_of-diff_pull_targets cloud client path d =
    let sha : CloudFile → String = λ e. e.sha256 in
    ap (λ l. last_of l path) (diff_pull-eq-diff_push cloud client)
    ∙ last_of-diff_push_targets (map_values sha cloud) client path (Distinct-map_values sha cloud d)
    ∙ ap (λ o. listed o (JsMap.get client path)) (get-map_values sha cloud path)

-- A path is to be removed exactly if the client has it and the cloud does not.
pub includes-diff_removed :
    (client : FileManifest) (cloud : CloudFileManifest) (path : String)
    → includes (diff_removed client cloud) path ≡ (not (has cloud path) && has client path)
unfolding diff_removed
includes-diff_removed client cloud path = includes-filter-keys (λ p. not (has cloud p)) client path

-- For a cloud manifest with distinct paths: a client manifest with the entries of diffPullTargets
-- written and the paths of diffRemoved deleted has at every path the cloud's digest, and none
-- where the cloud has none.
pub pull_converges :
    (cloud : CloudFileManifest) (client : FileManifest) (path : String)
    → Distinct cloud
    → JsMap.get
        (delete_all (set_all client (diff_pull_targets cloud client)) (diff_removed client cloud))
        path
      ≡ digest_at cloud path
pull_converges cloud client path d =
    rw
      (
        get-delete_all,
        get-set_all,
        last_of-diff_pull_targets cloud client path d,
        includes-diff_removed client cloud path,
      )
      (step (JsMap.get cloud path) (JsMap.get client path))
  where
    step :
        (c : Option CloudFile) (o : Option String)
        → (if not (is_some c) && is_some o
            then none
            else or_else (listed (map_option (λ (e : CloudFile). e.sha256) c) o) o)
          ≡ map_option (λ (e : CloudFile). e.sha256) c
    step none none = refl
    step none (some s) = refl
    step (some e) none = refl
    step (some e) (some s) = ground (arith, eq_iff s e.sha256)
