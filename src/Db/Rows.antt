-- ===== src/Db/Rows.antt =====
-- The rows of internal/db: objects.go, versions.go and blobs.go, with their tables. A time is a
-- number, 0 is the zero time; a uuid is a number, in the order of the uuids. A `metadata` is the JSON
-- object of the column: Db.Stored encodes and decodes it.
use infra_lightwight_s3_serv.Prelude.{ℕ, Bool, Bytes, List, Option, ◌&&◌, bytes_eq}

pub record Object : Type 0 where
  pub id : ℕ
  pub bucket_id : Bytes
  pub key : Bytes
  pub blob_digest : Bytes
  pub size : ℕ
  pub etag : Bytes
  pub content_type : Bytes
  pub metadata : List (Bytes × Bytes)
  pub version_id : Bytes
  pub created_at : ℕ
  pub updated_at : ℕ

pub record ObjectVersion : Type 0 where
  pub id : ℕ
  pub bucket_id : Bytes
  pub key : Bytes
  pub version_id : Bytes
  pub blob_digest : Option Bytes
  pub size : ℕ
  pub etag : Bytes
  pub content_type : Bytes
  pub metadata : List (Bytes × Bytes)
  pub is_delete_marker : Bool
  pub created_at : ℕ
  pub created_by : Bytes

pub record Blob : Type 0 where
  pub digest : Bytes
  pub size : ℕ
  pub refcount : ℕ
  pub created_at : ℕ

pub record MultipartUpload : Type 0 where
  pub id : ℕ
  pub upload_id : Bytes
  pub bucket_id : Bytes
  pub key : Bytes
  pub content_type : Bytes
  pub metadata : List (Bytes × Bytes)
  pub initiated_at : ℕ

-- A part; `upload` is the row of its upload.
pub record MultipartPart : Type 0 where
  pub upload : ℕ
  pub part_number : ℕ
  pub blob_digest : Bytes
  pub size : ℕ
  pub etag : Bytes
  pub uploaded_at : ℕ

pub record Tables : Type 0 where
  pub objects : List Object
  pub versions : List ObjectVersion
  pub blobs : List Blob
  pub uploads : List MultipartUpload
  pub parts : List MultipartPart

-- Why a transaction is abandoned: an error of the source, a constraint of the schema, or a
-- dereference of nil.
pub data Error : Type 0 where
  object_not_found version_not_found is_delete_marker upload_not_found : Error
  bucket_not_found bucket_exists bucket_not_empty : Error
  unique_violation check_violation foreign_key_violation nil_dereference remove_failed : Error

-- WHERE bucket_id = $1 AND key = $2.
abbrev pub at_key : Bytes → Bytes → Object → Bool
at_key bucket key o = bytes_eq o.bucket_id bucket && bytes_eq o.key key

abbrev pub of_key : Bytes → Bytes → ObjectVersion → Bool
of_key bucket key v = bytes_eq v.bucket_id bucket && bytes_eq v.key key

-- WHERE bucket_id = $1 AND key = $2 AND version_id = $3.
abbrev pub at_version : Bytes → Bytes → Bytes → ObjectVersion → Bool
at_version bucket key version v = of_key bucket key v && bytes_eq v.version_id version

abbrev pub same_digest : Bytes → Blob → Bool
same_digest digest b = bytes_eq b.digest digest

-- What a transaction takes from the clock and from the random sources: the start time that now()
-- reports, the uuids of the rows that it may insert, and the version ids that it may mint.
pub record Draw : Type 0 where
  pub now : ℕ
  pub object_id : ℕ
  pub superseded_row : ℕ
  pub recorded_row : ℕ
  pub incoming_version : Bytes
  pub recorded_version : Bytes
