-- ===== src/Db/Stored/Tests.antt =====
-- A write to an empty bucket, with an encoder that replaces what is no ASCII, as json.Marshal replaces
-- what is no UTF-8.
use infra_lightwight_s3_serv.Prelude.{
  ltb, Bytes, List, [], ◌∷◌, map, codes, none, ok, err, bytes_eq, find, upsert, if◌then◌else◌, ◌≡◌,
  refl, length,
}
use infra_lightwight_s3_serv.Db.Rows.{Tables, Object, Draw, check_violation}
use infra_lightwight_s3_serv.Db.Versioning.{enabled, versioned}
use infra_lightwight_s3_serv.Db.Blobs.{retain_blob}
use infra_lightwight_s3_serv.Db.Current.{
  WriteOptions, read_current, located, supersede, preserve, preserves, incoming_version,
}
use infra_lightwight_s3_serv.Db.Objects.{put_object, write_object, inserted, release_current}
use infra_lightwight_s3_serv.Db.Buckets.{Bucket}
use infra_lightwight_s3_serv.Db.Contract.{SameContents}
use infra_lightwight_s3_serv.Db.Stored.{
  Columns, check_row, store_object, read_object, read_object-store_object,
}

abbrev ascii : Bytes → Bytes
ascii s = map (λ c. if ltb c 128 then c else 63) s

abbrev columns : Columns
columns = record {
  marshal = λ m. ok (map (λ (e : Bytes × Bytes). (ascii e.0, ascii e.1)) m);
  unmarshal = λ m. ok m;
  characters = λ s. ok (length s);
}

abbrev photos : List Bucket
photos = record { id = codes "1"; name = codes "photos"; created_at = 1; created_by = none } ∷ []

abbrev photo : Bytes → Object
photo key = record {
  id = 0;
  bucket_id = codes "1";
  key = key;
  blob_digest = codes "aa";
  size = 5;
  etag = codes "aa";
  content_type = codes "image/jpeg";
  metadata = (codes "x-amz-meta-name", 97 ∷ 255 ∷ []) ∷ [];
  version_id = [];
  created_at = 0;
  updated_at = 0;
}

abbrev replaced : List (Bytes × Bytes)
replaced = (codes "x-amz-meta-name", codes "a?") ∷ []

abbrev draw : Draw
draw = record {
  now = 100;
  object_id = 11;
  superseded_row = 12;
  recorded_row = 13;
  incoming_version = codes "v1";
  recorded_version = codes "v2";
}

abbrev with_versions : WriteOptions
with_versions = record { versioning = enabled; actor = codes "ann" }

abbrev empty : Tables
empty = record { objects = []; versions = []; blobs = []; uploads = []; parts = [] }

abbrev stored : Tables
stored = record empty {
  objects =
      (let o = photo (codes "a.jpg") in
        record o {
          id = 11;
          metadata = replaced;
          version_id = codes "v1";
          created_at = 100;
          updated_at = 100;
        })
      ∷ [];
  blobs = record { digest = codes "aa"; size = 5; refcount = 1; created_at = 100 } ∷ [];
}

photo-stored :
    store_object columns photos draw (photo (codes "a.jpg")) with_versions empty ≡ ok stored
unfolding store_object check_row put_object located read_current retain_blob upsert supersede
    preserve preserves incoming_version versioned write_object inserted release_current find
    bytes_eq
photo-stored = refl

a_key_is_wanted :
    store_object columns photos draw (photo []) with_versions empty ≡ err check_violation
unfolding store_object check_row
a_key_is_wanted = refl

read_object-store_object_example :
    (o : Object) × (read_object columns (codes "1") (codes "a.jpg") stored ≡ ok o)
    × SameContents o (let p = photo (codes "a.jpg") in record p { metadata = replaced })
    × (o.version_id ≡ (if versioned enabled then codes "v1" else []))
    × (o.updated_at ≡ 100)
read_object-store_object_example =
    read_object-store_object columns photos draw (photo (codes "a.jpg")) with_versions empty stored
      replaced replaced refl refl photo-stored
