-- ===== src/Db/Buckets/Tests.antt =====
-- The theorems on the deletion of a bucket at concrete tables.
use infra_lightwight_s3_serv.Prelude.{
  not, ◌+◌, false, [], ◌∷◌, codes, bytes_eq, find, remove, keep, weight, none, some, ok, ◌≡◌, refl,
  Bool-cases, inl, inr,
}
use infra_lightwight_s3_serv.Db.Rows.{ObjectVersion, Tables}
use infra_lightwight_s3_serv.Db.Balance.{refcount, references, version_ref, IsConsistent, tally}
use infra_lightwight_s3_serv.Db.Buckets.{
  Bucket, named, has_objects, has_uploads, cascade, delete_bucket,
}
use infra_lightwight_s3_serv.Db.Buckets.Deletion.{delete_bucket_rows, delete_bucket_leaks}

abbrev photos : Bucket
photos = record { id = codes "1"; name = codes "photos"; created_at = 1; created_by = none }

-- A bucket whose one key was deleted: the version is kept.
abbrev deleted_photo : ObjectVersion
deleted_photo = record {
  id = 1;
  bucket_id = codes "1";
  key = codes "a.jpg";
  version_id = codes "v1";
  blob_digest = some (codes "aa");
  size = 5;
  etag = codes "aa";
  content_type = [];
  metadata = [];
  is_delete_marker = false;
  created_at = 1;
  created_by = [];
}

abbrev with_history : Tables
with_history = record {
  objects = [];
  versions = deleted_photo ∷ [];
  blobs = record { digest = codes "aa"; size = 5; refcount = 1; created_at = 1 } ∷ [];
  uploads = [];
  parts = [];
}

abbrev without_history : Tables
without_history = record with_history { versions = [] }

with_history-IsConsistent : IsConsistent with_history
unfolding refcount tally find weight bytes_eq
with_history-IsConsistent = record {
  balanced =
      λ e. elim (Bool-cases (bytes_eq (codes "aa") e)) [ inl k ↦ rw k refl | inr k ↦ rw k refl ];
  distinct = (refl, tt);
}

bucket_deleted :
    delete_bucket (codes "photos") (photos ∷ [], with_history) ≡ ok ([], without_history)
unfolding delete_bucket has_objects has_uploads cascade find remove bytes_eq
bucket_deleted = refl

delete_bucket_rows_example :
    (without_history.objects ≡ with_history.objects)
    × (without_history.uploads ≡ with_history.uploads)
    × (without_history.parts ≡ with_history.parts)
    × (without_history.blobs ≡ with_history.blobs)
delete_bucket_rows_example =
    delete_bucket_rows (codes "photos") (photos ∷ []) with_history ([], without_history)
      bucket_deleted

delete_bucket_leaks_example :
    (b : Bucket) × (find (named (codes "photos")) (photos ∷ []) ≡ some b)
    × (without_history.versions
        ≡ keep (λ (v : ObjectVersion). not (bytes_eq v.bucket_id b.id)) with_history.versions)
    × (refcount (codes "aa") without_history.blobs
        ≡ references (codes "aa") without_history
          + weight
              (version_ref (codes "aa"))
              (keep (λ (v : ObjectVersion). bytes_eq v.bucket_id b.id) with_history.versions))
delete_bucket_leaks_example =
    delete_bucket_leaks (codes "photos") (photos ∷ []) with_history ([], without_history)
      bucket_deleted with_history-IsConsistent.balanced (codes "aa")
