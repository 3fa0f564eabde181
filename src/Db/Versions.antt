-- ===== src/Db/Versions.antt =====
-- internal/db/versions.go: the history of a key, restoring and purging. Each transaction commits
-- whole or leaves the tables as they were.
use infra_lightwight_s3_serv.Prelude.{
  ℕ, ◌==◌, Bool, true, false, not, ◌||◌, Bytes, List, [], ◌∷◌, bytes_eq, find, remove, upsert, any,
  keep, Option, none, some, Result, ok, err, if◌then◌else◌, ◌>>=◌,
}
use infra_lightwight_s3_serv.Db.Rows.{
  Tables, Object, ObjectVersion, Error, Draw, version_not_found, unique_violation, check_violation,
  at_key, of_key, at_version,
}
use infra_lightwight_s3_serv.Db.Blobs.{retain_blob, release_blob}

-- CHECK object_versions_marker_has_no_blob.
unfoldable pub marker_has_no_blob : Bool → Option Bytes → Bool
marker_has_no_blob true none = true
marker_has_no_blob true (some d) = false
marker_has_no_blob false none = false
marker_has_no_blob false (some d) = true

-- INSERT INTO object_versions, with the primary key, the unique constraint and the check.
unfoldable pub insert_version : ObjectVersion → Tables → Result Error Tables
unfolding marker_has_no_blob
insert_version row db =
    if any (λ v. v.id == row.id || at_version row.bucket_id row.key row.version_id v) db.versions
    then err unique_violation
    else if marker_has_no_blob row.is_delete_marker row.blob_digest
    then ok (record db { versions = row ∷ db.versions })
    else err check_violation

-- The row that RecordVersion stores: an empty id is minted, a zero time is now.
unfoldable pub stored_version : ℕ → ℕ → Bytes → ObjectVersion → ObjectVersion
stored_version now row minted version = record version {
  id = row;
  version_id = if bytes_eq version.version_id [] then minted else version.version_id;
  created_at = if version.created_at == 0 then now else version.created_at;
}

unfoldable pub retain_digest : ℕ → Option Bytes → ℕ → Tables → Tables
unfolding retain_blob
retain_digest now none size db = db
retain_digest now (some digest) size db = record db { blobs = retain_blob now digest size db.blobs }

unfoldable pub record_version : ℕ → ℕ → Bytes → ObjectVersion → Tables → Result Error Tables
unfolding stored_version retain_digest insert_version
record_version now row minted version db =
    insert_version (stored_version now row minted version)
      (retain_digest now version.blob_digest version.size db)

unfoldable pub get_version : Bytes → Bytes → Bytes → Tables → Result Error ObjectVersion
get_version bucket key version db = elim (find (at_version bucket key version) db.versions) [
  | none ↦ err version_not_found
  | some v ↦ ok v
]

unfoldable pub release_digest : Option Bytes → Tables → Tables
unfolding release_blob
release_digest none db = db
release_digest (some digest) db = record db { blobs = release_blob digest db.blobs }

-- ReleaseBlob of the row that an overwrite or a delete replaced.
unfoldable pub release_previous : Option Object → Tables → Tables
unfolding release_blob
release_previous none db = db
release_previous (some o) db = record db { blobs = release_blob o.blob_digest db.blobs }

-- The row that RestoreVersion inserts, and its DO UPDATE SET: version_id is in neither.
unfoldable pub restored_row : Draw → Object → Object
restored_row draw new = record new {
  id = draw.object_id;
  version_id = [];
  created_at = draw.now;
  updated_at = draw.now;
}

unfoldable pub restored_over : Draw → Object → Object → Object
restored_over draw new o = record o {
  blob_digest = new.blob_digest;
  size = new.size;
  etag = new.etag;
  content_type = new.content_type;
  metadata = new.metadata;
  updated_at = draw.now;
}

unfoldable pub write_restored : Draw → Object → Tables → Tables
unfolding restored_row restored_over
write_restored draw new db = record db {
  objects =
      upsert (at_key new.bucket_id new.key) (restored_row draw new) (restored_over draw new)
        db.objects;
}

-- The object that RestoreVersion builds from a version with contents.
unfoldable pub restored_object : Bytes → Bytes → Bytes → ObjectVersion → Object
restored_object bucket key digest v = record {
  id = 0;
  bucket_id = bucket;
  key = key;
  blob_digest = digest;
  size = v.size;
  etag = v.etag;
  content_type = v.content_type;
  metadata = v.metadata;
  version_id = [];
  created_at = 0;
  updated_at = 0;
}

-- The version that RestoreVersion records of itself.
unfoldable pub restored_version : Bytes → Bytes → Bytes → ObjectVersion → ObjectVersion
restored_version bucket key actor v = record v {
  id = 0;
  bucket_id = bucket;
  key = key;
  version_id = [];
  is_delete_marker = false;
  created_at = 0;
  created_by = actor;
}

-- RestoreVersion from where the version is read: write the object, release what it replaced, and
-- record the restore as a version of its own.
unfoldable pub restore_contents :
    Draw → Bytes → Bytes → Bytes → ObjectVersion → Bytes → Tables → Result Error Tables
unfolding retain_blob restored_object restored_version write_restored release_previous
    record_version
restore_contents draw bucket key actor v digest db =
    let previous = find (at_key bucket key) db.objects in
    let retained = record db { blobs = retain_blob draw.now digest v.size db.blobs } in
    let written = write_restored draw (restored_object bucket key digest v) retained in
    record_version draw.now draw.recorded_row draw.recorded_version
      (restored_version bucket key actor v) (release_previous previous written)

-- A delete marker, or a version with no bytes, has nothing to restore.
unfoldable pub restore_digest :
    Draw → Bytes → Bytes → Bytes → ObjectVersion → Option Bytes → Tables → Result Error Tables
unfolding restore_contents
restore_digest draw bucket key actor v none db = err version_not_found
restore_digest draw bucket key actor v (some digest) db =
    restore_contents draw bucket key actor v digest db

unfoldable pub restore_version : Draw → Bytes → Bytes → Bytes → Bytes → Tables → Result Error Tables
unfolding get_version restore_digest
restore_version draw bucket key version actor db = do
  v ← get_version bucket key version db
  if v.is_delete_marker
      then err version_not_found
      else restore_digest draw bucket key actor v v.blob_digest db

-- DELETE FROM object_versions … RETURNING, and the release of what the row held.
unfoldable pub delete_version_row : Bytes → Bytes → Bytes → Tables → Option (ObjectVersion × Tables)
unfolding release_digest
delete_version_row bucket key version db = elim (find (at_version bucket key version) db.versions) [
  | none ↦ none
  | some v ↦ some (
    v,
    release_digest v.blob_digest
        (record db { versions = remove (at_version bucket key version) db.versions }),
  )
]

unfoldable pub purge_version : Bytes → Bytes → Bytes → Tables → Result Error Tables
unfolding delete_version_row
purge_version bucket key version db = elim (delete_version_row bucket key version db) [
  | none ↦ err version_not_found
  | some (v, db') ↦ ok db'
]

unfoldable pub release_each : List ObjectVersion → Tables → Tables
unfolding release_digest
release_each [] db = db
release_each (v ∷ vs) db = release_each vs (release_digest v.blob_digest db)

unfoldable pub has_blob : ObjectVersion → Bool
has_blob v = elim v.blob_digest [ none ↦ false | some d ↦ true ]

-- The purged rows with bytes, and the tables after it; the source reports how many they were.
unfoldable pub purge_key_versions : Bytes → Bytes → Tables → List ObjectVersion × Tables
unfolding release_each has_blob
purge_key_versions bucket key db =
    let purged = keep has_blob (keep (of_key bucket key) db.versions) in
    (
      purged,
      release_each purged
          (record db { versions = keep (λ v. not (of_key bucket key v)) db.versions }),
    )
