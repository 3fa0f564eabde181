-- ===== src/Db/Buckets.antt =====
-- internal/db/buckets.go, with HasVersionHistory of version_listing.go. The rows of a bucket go with
-- it: the foreign keys onto buckets cascade.
use infra_lightwight_s3_serv.Prelude.{
  ℕ, ◌==◌, Bool, not, ◌&&◌, ◌||◌, Bytes, List, [], ◌∷◌, bytes_eq, find, remove, any, keep, Option,
  none, some, Result, ok, err, if◌then◌else◌,
}
use infra_lightwight_s3_serv.Db.Rows.{
  Tables, Object, ObjectVersion, MultipartUpload, MultipartPart, Error, bucket_not_found,
  bucket_exists, bucket_not_empty,
}
pub mod Deletion
mod Tests

pub record Bucket : Type 0 where
  pub id : Bytes
  pub name : Bytes
  pub created_at : ℕ
  pub created_by : Option Bytes

-- The table of buckets, and the tables that hang from it.
abbrev pub Namespace : Type 0
Namespace = List Bucket × Tables

abbrev pub named : Bytes → Bucket → Bool
named name b = bytes_eq b.name name

unfoldable pub create_bucket : Bytes → ℕ → Bytes → Option Bytes → Namespace → Result Error Namespace
create_bucket id now name created_by (buckets, db) =
    if any (named name) buckets
    then err bucket_exists
    else ok
        (record { id = id; name = name; created_at = now; created_by = created_by } ∷ buckets, db)

unfoldable pub get_bucket : Bytes → Namespace → Result Error Bucket
get_bucket name (buckets, db) = elim (find (named name) buckets) [
  | none ↦ err bucket_not_found
  | some b ↦ ok b
]

-- ORDER BY name; `before` is the collation of the database.
unfoldable pub insert_by_name : (Bytes → Bytes → Bool) → Bucket → List Bucket → List Bucket
insert_by_name before b [] = b ∷ []
insert_by_name before b (c ∷ cs) =
    if before c.name b.name then c ∷ insert_by_name before b cs else b ∷ c ∷ cs

unfoldable pub by_name : (Bytes → Bytes → Bool) → List Bucket → List Bucket
unfolding insert_by_name
by_name before [] = []
by_name before (b ∷ bs) = insert_by_name before b (by_name before bs)

unfoldable pub list_buckets : (Bytes → Bytes → Bool) → Namespace → List Bucket
unfolding by_name
list_buckets before (buckets, db) = by_name before buckets

unfoldable pub has_version_history : Bytes → Tables → Bool
has_version_history id db = any (λ (v : ObjectVersion). bytes_eq v.bucket_id id) db.versions

unfoldable pub has_objects : Bytes → Tables → Bool
has_objects id db = any (λ (o : Object). bytes_eq o.bucket_id id) db.objects

unfoldable pub has_uploads : Bytes → Tables → Bool
has_uploads id db = any (λ (u : MultipartUpload). bytes_eq u.bucket_id id) db.uploads

unfoldable pub cascade : Bytes → Tables → Tables
cascade id db = record db {
  objects = keep (λ (o : Object). not (bytes_eq o.bucket_id id)) db.objects;
  versions = keep (λ (v : ObjectVersion). not (bytes_eq v.bucket_id id)) db.versions;
  uploads = keep (λ (u : MultipartUpload). not (bytes_eq u.bucket_id id)) db.uploads;
  parts =
      keep
        (λ (p : MultipartPart).
          not
            (any (λ (u : MultipartUpload). bytes_eq u.bucket_id id && u.id == p.upload) db.uploads))
        db.parts;
}

-- DeleteBucket: the statement that deletes an empty bucket, and the error where it deleted none.
unfoldable pub delete_bucket : Bytes → Namespace → Result Error Namespace
unfolding has_objects has_uploads cascade
delete_bucket name (buckets, db) = elim (find (named name) buckets) [
  | none ↦ err bucket_not_found
  | some b ↦
      if has_objects b.id db || has_uploads b.id db
      then err bucket_not_empty
      else ok (remove (named name) buckets, cascade b.id db)
]
