-- ===== src/Db/Objects.antt =====
-- internal/db/objects.go and version_access.go: writing, reading and deleting a key, and one
-- version of it.
use infra_lightwight_s3_serv.Prelude.{
  ltb, ◌==◌, Bool, true, false, not, ◌&&◌, ◌||◌, Bytes, List, [], ◌∷◌, bytes_eq, find, remove,
  upsert, any, Option, none, some, Result, ok, err, if◌then◌else◌, ◌>>=◌,
}
use infra_lightwight_s3_serv.Db.Rows.{
  Tables, Object, ObjectVersion, Error, Draw, at_key, of_key, object_not_found, version_not_found,
  is_delete_marker, unique_violation, nil_dereference,
}
use infra_lightwight_s3_serv.Db.Versioning.{
  configured, versioned, null_version_id, external_version_id, internal_version_id,
}
use infra_lightwight_s3_serv.Db.Blobs.{retain_blob, release_blob}
use infra_lightwight_s3_serv.Db.Versions.{
  record_version, stored_version, get_version, delete_version_row,
}
use infra_lightwight_s3_serv.Db.Current.{
  WriteOptions, CurrentState, read_current, located, supersede, replace_null_version,
}

-- The row that PutObject inserts, and its DO UPDATE SET.
unfoldable pub inserted : Draw → Object → Object
inserted draw new = record new { id = draw.object_id; created_at = draw.now; updated_at = draw.now }

unfoldable pub overwritten : Draw → Object → Object → Object
overwritten draw new o = record o {
  blob_digest = new.blob_digest;
  size = new.size;
  etag = new.etag;
  content_type = new.content_type;
  metadata = new.metadata;
  version_id = new.version_id;
  updated_at = draw.now;
}

unfoldable pub write_object : Draw → Object → Tables → Tables
unfolding inserted overwritten
write_object draw new db = record db {
  objects =
      upsert (at_key new.bucket_id new.key) (inserted draw new) (overwritten draw new) db.objects;
}

unfoldable pub release_current : CurrentState → Tables → Tables
unfolding release_blob
release_current cur db =
    if cur.exists then record db { blobs = release_blob cur.object.blob_digest db.blobs } else db

-- PutObject from its lock on, without what Db.Stored adds: the encoding of the metadata and the checks
-- of the row.
unfoldable pub put_object : Draw → Object → WriteOptions → Tables → Result Error Tables
unfolding located read_current retain_blob supersede write_object release_current
put_object draw obj opts db = do
  let previous = located obj.bucket_id obj.key (read_current obj.bucket_id obj.key db)
  (version, db') ←
      supersede draw previous opts
        (record db { blobs = retain_blob draw.now obj.blob_digest obj.size db.blobs })
  ok (release_current previous (write_object draw (record obj { version_id = version }) db'))

-- GetObject, with the metadata as the column holds them.
unfoldable pub get_object : Bytes → Bytes → Tables → Result Error Object
get_object bucket key db = elim (find (at_key bucket key) db.objects) [
  | none ↦ err object_not_found
  | some o ↦ ok o
]

pub record Deletion : Type 0 where
  pub deleted : Bool
  pub marker_version_id : Bytes
  pub delete_marker : Bool

unfoldable pub delete_marker_row : Bytes → Bytes → Bytes → Bytes → ObjectVersion
delete_marker_row bucket key version actor = record {
  id = 0;
  bucket_id = bucket;
  key = key;
  version_id = version;
  blob_digest = none;
  size = 0;
  etag = [];
  content_type = [];
  metadata = [];
  is_delete_marker = true;
  created_at = 0;
  created_by = actor;
}

-- The id of a delete marker, and its row in history: a suspended bucket has one null version.
unfoldable pub marker_of : Draw → Bytes → Bytes → WriteOptions → ObjectVersion
unfolding versioned delete_marker_row
marker_of draw bucket key opts =
    delete_marker_row bucket key
      (if versioned opts.versioning then draw.incoming_version else null_version_id) opts.actor

unfoldable pub make_room : Bytes → Bytes → WriteOptions → Tables → Tables
unfolding versioned replace_null_version
make_room bucket key opts db =
    if versioned opts.versioning then db else replace_null_version bucket key db

unfoldable pub place_marker :
    Draw → Bytes → Bytes → WriteOptions → Tables → Result Error (Bytes × Tables)
unfolding marker_of make_room record_version stored_version external_version_id
place_marker draw bucket key opts db = do
  let marker = marker_of draw bucket key opts
  db' ←
      record_version draw.now draw.recorded_row draw.recorded_version marker
        (make_room bucket key opts db)
  let stored = stored_version draw.now draw.recorded_row draw.recorded_version marker
  ok (external_version_id stored.version_id, db')

-- The part of DeleteObject under Configured: preserve what is current and write the marker.
unfoldable pub write_marker :
    Draw → Bytes → Bytes → CurrentState → WriteOptions → Tables → Result Error (Bytes × Tables)
unfolding supersede place_marker
write_marker draw bucket key removed opts db = do
  (_, kept) ← supersede draw removed opts db
  place_marker draw bucket key opts kept

-- DELETE FROM objects, and the release of the row's own reference.
unfoldable pub remove_current : Bytes → Bytes → CurrentState → Tables → Tables
unfolding release_blob
remove_current bucket key cur db = record db {
  objects = remove (at_key bucket key) db.objects;
  blobs = release_blob cur.object.blob_digest db.blobs;
}

unfoldable pub finish_delete :
    Bytes → Bytes → CurrentState → WriteOptions → Bytes → Tables → Deletion × Tables
unfolding configured remove_current
finish_delete bucket key removed opts marker db =
    if removed.exists
    then (
      record {
        deleted = true;
        marker_version_id = marker;
        delete_marker = configured opts.versioning;
      },
      remove_current bucket key removed db,
    )
    else (
      record {
        deleted = configured opts.versioning;
        marker_version_id = marker;
        delete_marker = configured opts.versioning;
      },
      db,
    )

-- The branch of DeleteObject on Configured: the marker's id, and the tables with it.
unfoldable pub begin_delete :
    Draw → Bytes → Bytes → CurrentState → WriteOptions → Tables → Result Error (Bytes × Tables)
unfolding configured write_marker
begin_delete draw bucket key removed opts db =
    if configured opts.versioning then write_marker draw bucket key removed opts db else ok ([], db)

unfoldable pub delete_object :
    Draw → Bytes → Bytes → WriteOptions → Tables → Result Error (Deletion × Tables)
unfolding located read_current begin_delete finish_delete
delete_object draw bucket key opts db = do
  let removed = located bucket key (read_current bucket key db)
  (marker, db') ← begin_delete draw bucket key removed opts db
  ok (finish_delete bucket key removed opts marker db')

unfoldable pub version_or_null : Bytes → Bytes
version_or_null stored = if bytes_eq stored [] then null_version_id else stored

-- What GetObjectVersion returns of a version in history.
unfoldable pub object_of_version : Bytes → Bytes → Bytes → ObjectVersion → Result Error Object
object_of_version bucket key stored v =
    if v.is_delete_marker then err is_delete_marker else elim v.blob_digest [
      | none ↦ err nil_dereference
      | some digest ↦ ok (record {
        id = 0;
        bucket_id = bucket;
        key = key;
        blob_digest = digest;
        size = v.size;
        etag = v.etag;
        content_type = v.content_type;
        metadata = v.metadata;
        version_id = stored;
        created_at = v.created_at;
        updated_at = v.created_at;
      })
    ]

unfoldable pub is_current : CurrentState → Bytes → Bool
is_current cur stored = cur.exists && bytes_eq cur.version_id stored

-- GetObjectVersion from where the current version is read.
unfoldable pub version_from : Bytes → Bytes → Bytes → CurrentState → Tables → Result Error Object
unfolding is_current version_or_null get_version object_of_version
version_from bucket key stored cur db =
    if is_current cur stored
    then ok (
        let o = cur.object in
        record o { bucket_id = bucket; key = key; version_id = cur.version_id })
    else do
      v ← get_version bucket key (version_or_null stored) db
      object_of_version bucket key stored v

unfoldable pub get_object_version : Bytes → Bytes → Bytes → Tables → Result Error Object
unfolding internal_version_id read_current version_from
get_object_version bucket key version db =
    version_from bucket key (internal_version_id version) (read_current bucket key db) db

-- ORDER BY created_at DESC, id DESC.
unfoldable pub newer : ObjectVersion → ObjectVersion → Bool
newer v w = ltb w.created_at v.created_at || (v.created_at == w.created_at && ltb w.id v.id)

unfoldable pub newest_version : Bytes → Bytes → List ObjectVersion → Option ObjectVersion
unfolding newer
newest_version bucket key [] = none
newest_version bucket key (v ∷ vs) = elim (newest_version bucket key vs) [
  | none ↦ if of_key bucket key v then some v else none
  | some w ↦ if of_key bucket key v && newer v w then some v else some w
]

-- The INSERT INTO objects of promoteNewestVersion: no ON CONFLICT.
unfoldable pub insert_promoted :
    Draw → Bytes → Bytes → Bytes → ObjectVersion → Tables → Result Error Tables
unfolding internal_version_id
insert_promoted draw bucket key digest v db =
    if any (at_key bucket key) db.objects
    then err unique_violation
    else ok (record db {
      objects =
          record {
            id = draw.object_id;
            bucket_id = bucket;
            key = key;
            blob_digest = digest;
            size = v.size;
            etag = v.etag;
            content_type = v.content_type;
            metadata = v.metadata;
            version_id = internal_version_id v.version_id;
            created_at = draw.now;
            updated_at = draw.now;
          }
          ∷ db.objects;
    })

unfoldable pub promote_version :
    Draw → Bytes → Bytes → ObjectVersion → Bytes → Tables → Result Error Tables
unfolding retain_blob insert_promoted release_blob
promote_version draw bucket key v digest db = do
  t ←
      insert_promoted draw bucket key digest v
        (record db { blobs = retain_blob draw.now digest v.size db.blobs })
  ok (record t {
    versions = remove (λ w. w.id == v.id) t.versions;
    blobs = release_blob digest t.blobs;
  })

unfoldable pub promote_newest_version : Draw → Bytes → Bytes → Tables → Result Error Tables
unfolding newest_version promote_version
promote_newest_version draw bucket key db = elim (newest_version bucket key db.versions) [
  | none ↦ ok db
  | some v ↦ if v.is_delete_marker then ok db else elim v.blob_digest [
    | none ↦ err nil_dereference
    | some digest ↦ promote_version draw bucket key v digest db
  ]
]

-- The two ways of DeleteObjectVersion to remove the version.
unfoldable pub delete_addressed :
    Bytes → Bytes → Bytes → CurrentState → Tables → Result Error (Deletion × Tables)
unfolding is_current remove_current version_or_null delete_version_row
delete_addressed bucket key stored cur db =
    if is_current cur stored
    then ok (
      record { deleted = true; marker_version_id = []; delete_marker = false },
      remove_current bucket key cur db,
    )
    else elim (delete_version_row bucket key (version_or_null stored) db) [
      | none ↦ err version_not_found
      | some (v, db') ↦ ok (
        record { deleted = true; marker_version_id = []; delete_marker = v.is_delete_marker },
        db',
      )
    ]

-- Promotion follows only where nothing is current.
unfoldable pub promote_if_vacant :
    Draw → Bytes → Bytes → Bytes → CurrentState → Tables → Result Error Tables
unfolding promote_newest_version
promote_if_vacant draw bucket key stored cur db =
    if not cur.exists || bytes_eq cur.version_id stored
    then promote_newest_version draw bucket key db
    else ok db

unfoldable pub delete_object_version :
    Draw → Bytes → Bytes → Bytes → Tables → Result Error (Deletion × Tables)
unfolding internal_version_id read_current delete_addressed promote_if_vacant
delete_object_version draw bucket key version db = do
  let stored = internal_version_id version
  let cur = read_current bucket key db
  (result, db') ← delete_addressed bucket key stored cur db
  promoted ← promote_if_vacant draw bucket key stored cur db'
  ok (result, promoted)
