-- ===== src/Replica/Listing.antt =====
-- What the local manifest says of the files.
use tekbreed_oss.Prelude.{
  String, ◌≡◌, sym, refl, Bool, true, false, not, Option, none, some, List, [], ◌∷◌, arith, ◌==◌,
  eq_iff, All, All-append, includes, if◌then◌else◌, inl, inr, Bool-cases,
}
use tekbreed_oss.Prelude.Result.{Result, ok, throw, ◌>>◌, >>=-eq-ok, Result-cases, ok-injective}
use mathlib.Core.Path.{subst}
use tekbreed_oss.JsMap
use tekbreed_oss.JsMap.{JsMap, get-set}
use tekbreed_oss.JsMap.Bulk.{map_option}
use tekbreed_oss.Memory.Paths.{
  PathText, MemoryError, canonical_tekmemo_files, assert_memory_path, create_snapshot_path,
  safe_snapshot_path, safe_snapshot_path_from_path, safe_memory_path, refuse, snapshot_id_empty,
  snapshot_id_unsupported,
}
use tekbreed_oss.Memory.Store.{Files}
use tekbreed_oss.Memory.Store
use tekbreed_oss.Memory.Records.{MalformedJsonlMode, SnapshotRecord, read_snapshot_records}
use tekbreed_oss.Sync.Manifest.{FileManifest}
use tekbreed_oss.Replica.{
  Parsing, add_found, add_snapshot, present, snapshot_paths, present_snapshots, list_present_paths,
  digests, compute_local_manifest,
}

-- A path that the layer reads, writes and deletes as it is.
pub record Good (text : PathText) (path : String) : Type 0 where
  pub safe : safe_memory_path text path ≡ some path
  pub passes : assert_memory_path text path ≡ ok tt

-- What the language does with the text of a snapshot's path.
pub record SnapshotText (text : PathText) : Type 0 where
  pub starts : (s : String) → text.starts_with (text.snapshot_path s) ".tekmemo/snapshots/" ≡ true
  pub ends : (s : String) → text.ends_with (text.snapshot_path s) ".json" ≡ true
  pub inner_path : (s : String) → text.inner (text.snapshot_path s) ≡ s
  pub trim_trim : (s : String) → text.trim (text.trim s) ≡ text.trim s

module _ (text : PathText) (parsing : Parsing) where
  pub read-get :
      (files : Files) (path content : String)
      → Store.read text files path ≡ ok content
      → JsMap.get files path ≡ some content
  unfolding Store.read
  read-get files path content h =
      let (_, _, found) = >>=-eq-ok (assert_memory_path text path) _ h in ground arith

  exists-passes :
      (files : Files) (path : String) (here : Bool)
      → Store.exists text files path ≡ ok here
      → assert_memory_path text path ≡ ok tt
  unfolding Store.exists
  exists-passes files path here h =
      let (_, passes, _) = >>=-eq-ok (assert_memory_path text path) _ h in passes

  create_snapshot_path-lem :
      (id path : String)
      → create_snapshot_path text id ≡ ok path
      → (path ≡ text.snapshot_path (text.trim id)) × (assert_memory_path text path ≡ ok tt)
  unfolding create_snapshot_path
  create_snapshot_path-lem id path h =
      let made = text.snapshot_path (text.trim id) in
      let asserted : Unit {0} → Result MemoryError String =
        λ _. assert_memory_path text made >> ok made in
      let named : Unit {0} → Result MemoryError String = λ _.
        refuse (not (text.snapshot_name (text.trim id))) snapshot_id_unsupported
        >> (assert_memory_path text made >> ok made) in
      let (_, _, h₁) = >>=-eq-ok (refuse (text.trim id == "") snapshot_id_empty) named h in
      let (_, _, h₂) =
        >>=-eq-ok (refuse (not (text.snapshot_name (text.trim id))) snapshot_id_unsupported)
          asserted h₁ in
      let (_, passes, last) = >>=-eq-ok (assert_memory_path text made) (λ _. ok made) h₂ in
      let same : made ≡ path = ok-injective last in
      (sym same, subst (λ q. assert_memory_path text q ≡ ok tt) same passes)

  module _ (laws : SnapshotText text) where
    open laws use {starts, ends, inner_path, trim_trim}

    create_snapshot_path-trim :
        (id : String) → create_snapshot_path text (text.trim id) ≡ create_snapshot_path text id
    unfolding create_snapshot_path
    create_snapshot_path-trim id = rw (trim_trim id) refl

    from_path-made :
        (id path : String)
        → create_snapshot_path text id ≡ ok path
        → path ≡ text.snapshot_path (text.trim id)
        → safe_snapshot_path_from_path text path ≡ some path
    unfolding safe_snapshot_path_from_path safe_snapshot_path
    from_path-made id path made same = ground (
      arith,
      starts (text.trim id),
      ends (text.trim id),
      inner_path (text.trim id),
      create_snapshot_path-trim id,
    )

    safe_snapshot_path-Good :
        (id path : String) → safe_snapshot_path text id ≡ some path → Good text path
    unfolding safe_snapshot_path safe_memory_path
    safe_snapshot_path-Good id path h = elim (Result-cases (create_snapshot_path text id)) [
      | inr (e, failed) ↦ ground arith
      | inl (made, returned) ↦
          let same : create_snapshot_path text id ≡ ok path = ground arith in
          let (shape, passes) = create_snapshot_path-lem id path same in
          let own = from_path-made id path same shape in
          record { safe = ground (arith, own); passes = passes }
    ]

    present-Good :
        (files : Files) (list paths : List String)
        → All (λ p. includes canonical_tekmemo_files p ≡ true) list
        → present text parsing files list ≡ ok paths
        → All (Good text) paths
    unfolding present safe_memory_path
    present-Good files [] paths known h = subst (All (Good text)) (ok-injective h) tt
    present-Good files (p ∷ list) paths known h =
        let (here, there, h₁) = >>=-eq-ok (Store.exists text files p) _ h in
        let (rest, found, last) = >>=-eq-ok (present text parsing files list) _ h₁ in
        let all : All (Good text) rest = present-Good files list rest known.1 found in
        let own : Good text p = record {
          safe = ground (arith, known.0);
          passes = exists-passes files p here there;
        } in
        elim (Bool-cases here) [
          | inl e ↦ subst (All (Good text)) (shown here rest paths e last) (own, all)
          | inr e ↦ subst (All (Good text)) (hidden here rest paths e last) all
        ]
      where
        shown :
            (b : Bool) (rest paths : List String)
            → b ≡ true
            → ◌≡◌ {A = Result MemoryError (List String)}
                (ok (if b then p ∷ rest else rest))
                (ok paths)
            → p ∷ rest ≡ paths
        shown b rest paths e h = ground (arith, ok-injective h)

        hidden :
            (b : Bool) (rest paths : List String)
            → b ≡ false
            → ◌≡◌ {A = Result MemoryError (List String)}
                (ok (if b then p ∷ rest else rest))
                (ok paths)
            → rest ≡ paths
        hidden b rest paths e h = ground (arith, ok-injective h)

    add_found-Good :
        (path : String) (found : Result MemoryError Bool) (rest : List String)
        → Good text path
        → All (Good text) rest
        → All (Good text) (add_found text parsing path found rest)
    add_found-Good path (throw e) rest good all = tt
    add_found-Good path (ok true) rest good all = (good, all)
    add_found-Good path (ok false) rest good all = all

    add_snapshot-Good :
        (files : Files) (o : Option String) (rest : List String)
        → ((path : String) → o ≡ some path → Good text path)
        → All (Good text) rest
        → All (Good text) (add_snapshot text parsing files o rest)
    add_snapshot-Good files none rest good all = all
    add_snapshot-Good files (some path) rest good all =
        add_found-Good path (Store.exists text files path) rest (good path refl) all

    snapshot_paths-Good :
        (files : Files) (records : List SnapshotRecord)
        → All (Good text) (snapshot_paths text parsing files records)
    unfolding snapshot_paths
    snapshot_paths-Good files [] = tt
    snapshot_paths-Good files (r ∷ records) =
        add_snapshot-Good files (safe_snapshot_path text r.id)
          (snapshot_paths text parsing files records) (safe_snapshot_path-Good r.id)
          (snapshot_paths-Good files records)

    present_snapshots-Good :
        (files : Files) → All (Good text) (present_snapshots text parsing files)
    unfolding present_snapshots
    present_snapshots-Good files = go (
        read_snapshot_records text parsing.is_date parsing.split parsing.json_parse
          MalformedJsonlMode.skip files)
      where
        go :
            (o : Option (List SnapshotRecord))
            → All
                (Good text)
                (elim o [ none ↦ [] | some records ↦ snapshot_paths text parsing files records ])
        go none = tt
        go (some records) = snapshot_paths-Good files records

    canonical-known : All (λ p. includes canonical_tekmemo_files p ≡ true) canonical_tekmemo_files
    unfolding includes
    canonical-known =
        (refl, (refl, (refl, (refl, (refl, (refl, (refl, (refl, (refl, (refl, (refl, tt)))))))))))

    list_present_paths-Good :
        (files : Files) (paths : List String)
        → list_present_paths text parsing files ≡ ok paths
        → All (Good text) paths
    unfolding list_present_paths
    list_present_paths-Good files paths h =
        let (known, found, last) =
          >>=-eq-ok (present text parsing files canonical_tekmemo_files) _ h in
        subst (All (Good text)) (ok-injective last) (
          All-append (Good text) known (present_snapshots text parsing files)
            (present-Good files canonical_tekmemo_files known canonical-known found)
            (present_snapshots-Good files))

    module _ (sha : String → String) where
      -- Each path read has the digest of its file, and any other keeps its entry.
      get-digests :
          (files : Files) (m last : FileManifest) (paths : List String) (path : String)
          → digests text parsing sha files m paths ≡ ok last
          → JsMap.get last path ≡ (
              if includes paths path
              then map_option sha (JsMap.get files path)
              else JsMap.get m path)
      unfolding digests includes
      get-digests files m last [] path h = ground (arith, ok-injective h)
      get-digests files m last (p ∷ paths) path h =
          let (content, here, rest) = >>=-eq-ok (Store.read text files p) _ h in
          ground (
            arith,
            get-digests files (JsMap.set m p (sha content)) last paths path rest,
            get-set m p path (sha content),
            read-get files p content here,
            eq_iff p path,
          )

      -- An entry of the local manifest is the digest of a file under a path that the layer uses.
      pub compute_local_manifest-lem :
          (files : Files) (m : FileManifest)
          → compute_local_manifest text parsing sha files ≡ ok m
          → (paths : List String) × All (Good text) paths
            × ((path : String)
                → JsMap.get m path
                  ≡ (if includes paths path then map_option sha (JsMap.get files path) else none))
      unfolding compute_local_manifest JsMap.get
      compute_local_manifest-lem files m h =
          let (paths, listed, rest) = >>=-eq-ok (list_present_paths text parsing files) _ h in
          (
            paths,
            list_present_paths-Good files paths listed,
            λ path. get-digests files [] m paths path rest,
          )
