-- ===== src/Db/Current.antt =====
-- internal/db/current.go: what happens to the version that a write replaces.
use infra_lightwight_s3_serv.Prelude.{
  Bool, true, false, not, ◌&&◌, Bytes, [], bytes_eq, find, none, some, Result, ok, if◌then◌else◌,
  ◌>>=◌,
}
use infra_lightwight_s3_serv.Db.Rows.{Tables, Object, ObjectVersion, Error, Draw, at_key}
use infra_lightwight_s3_serv.Db.Versioning.{
  VersioningState, enabled, suspended, versioned, null_version_id,
}
use infra_lightwight_s3_serv.Db.Versions.{record_version, delete_version_row}

pub record WriteOptions : Type 0 where
  pub versioning : VersioningState
  pub actor : Bytes

pub record CurrentState : Type 0 where
  pub object : Object
  pub version_id : Bytes
  pub exists : Bool

abbrev pub zero_object : Object
zero_object = record {
  id = 0;
  bucket_id = [];
  key = [];
  blob_digest = [];
  size = 0;
  etag = [];
  content_type = [];
  metadata = [];
  version_id = [];
  created_at = 0;
  updated_at = 0;
}

-- What the scan of readCurrent fills in: the id, the key and the creation time stay zero.
unfoldable pub scanned : Object → CurrentState
scanned o = record {
  object = record o { id = 0; bucket_id = []; key = []; version_id = []; created_at = 0 };
  version_id = o.version_id;
  exists = true;
}

unfoldable pub read_current : Bytes → Bytes → Tables → CurrentState
unfolding scanned
read_current bucket key db = elim (find (at_key bucket key) db.objects) [
  | none ↦ record { object = zero_object; version_id = []; exists = false }
  | some o ↦ scanned o
]

-- previous.BucketID, previous.Key = …, which the callers of supersede set.
unfoldable pub located : Bytes → Bytes → CurrentState → CurrentState
located bucket key cur = record cur {
  object = let o = cur.object in record o { bucket_id = bucket; key = key };
}

unfoldable pub preserves : VersioningState → CurrentState → Bool
preserves enabled cur = cur.exists
preserves suspended cur = cur.exists && not (bytes_eq cur.version_id [])
preserves _ cur = false

-- The row of the version that a write replaces; the null version is spelled out.
unfoldable pub superseded : CurrentState → Bytes → ObjectVersion
superseded cur actor =
    let o = cur.object in
    record {
      id = 0;
      bucket_id = o.bucket_id;
      key = o.key;
      version_id = if bytes_eq cur.version_id [] then null_version_id else cur.version_id;
      blob_digest = some o.blob_digest;
      size = o.size;
      etag = o.etag;
      content_type = o.content_type;
      metadata = o.metadata;
      is_delete_marker = false;
      created_at = o.updated_at;
      created_by = actor;
    }

-- The part of supersede that moves the replaced version into history.
unfoldable pub preserve : Draw → CurrentState → WriteOptions → Tables → Result Error Tables
unfolding preserves superseded record_version
preserve draw cur opts db =
    if preserves opts.versioning cur
    then record_version draw.now draw.superseded_row draw.recorded_version
        (superseded cur opts.actor) db
    else ok db

-- Only an enabled bucket mints a version id.
unfoldable pub incoming_version : Draw → WriteOptions → Bytes
unfolding versioned
incoming_version draw opts = if versioned opts.versioning then draw.incoming_version else []

-- The id of the incoming version, and the tables with the replaced one moved into history.
unfoldable pub supersede :
    Draw → CurrentState → WriteOptions → Tables → Result Error (Bytes × Tables)
unfolding preserve incoming_version
supersede draw cur opts db = do
  db' ← preserve draw cur opts db
  ok (incoming_version draw opts, db')

unfoldable pub replace_null_version : Bytes → Bytes → Tables → Tables
unfolding delete_version_row
replace_null_version bucket key db = elim (delete_version_row bucket key null_version_id db) [
  | none ↦ db
  | some (v, db') ↦ db'
]
