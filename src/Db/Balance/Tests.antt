-- ===== src/Db/Balance/Tests.antt =====
-- The theorems on uploads at concrete tables.
use infra_lightwight_s3_serv.Prelude.{[], ◌∷◌, codes, ok, ◌>>=◌, ◌≡◌}
use infra_lightwight_s3_serv.Db.Rows.{Draw, Object, Tables}
use infra_lightwight_s3_serv.Db.Versioning.{enabled}
use infra_lightwight_s3_serv.Db.Current.{WriteOptions}
use infra_lightwight_s3_serv.Db.Objects.{put_object}
use infra_lightwight_s3_serv.Db.Multipart.{complete_multipart_upload, release_upload}
use infra_lightwight_s3_serv.Db.Balance.Uploads.{complete_multipart_upload-put_object}

abbrev draw : Draw
draw = record {
  now = 9;
  object_id = 91;
  superseded_row = 92;
  recorded_row = 93;
  incoming_version = codes "v";
  recorded_version = codes "w";
}

abbrev object : Object
object = record {
  id = 0;
  bucket_id = codes "photos";
  key = codes "a.jpg";
  blob_digest = codes "aa";
  size = 1;
  etag = [];
  content_type = [];
  metadata = [];
  version_id = [];
  created_at = 0;
  updated_at = 0;
}

abbrev versions_on : WriteOptions
versions_on = record { versioning = enabled; actor = [] }

abbrev in_progress : Tables
in_progress = record {
  objects = [];
  versions = [];
  blobs = [];
  uploads =
      record {
        id = 1;
        upload_id = codes "u";
        bucket_id = codes "photos";
        key = codes "a.jpg";
        content_type = [];
        metadata = [];
        initiated_at = 1;
      }
      ∷ [];
  parts = [];
}

complete_multipart_upload-put_object_example :
    complete_multipart_upload draw 1 object versions_on in_progress
    ≡ (put_object draw object versions_on in_progress >>= (λ t. ok (release_upload 1 t)))
complete_multipart_upload-put_object_example =
    complete_multipart_upload-put_object draw 1 object versions_on in_progress
