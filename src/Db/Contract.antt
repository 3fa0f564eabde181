-- ===== src/Db/Contract.antt =====
-- What the operations of objects.go and version_access.go promise of the contents of a key.
pub mod Writes
pub mod Preserved
pub mod Nulls
pub mod Restored
pub mod Deletes
use infra_lightwight_s3_serv.Prelude.{Bytes, List, ◌≡◌, Option, some}
use infra_lightwight_s3_serv.Db.Rows.{Object, ObjectVersion}

-- The columns that a client reads of an object.
pub record SameContents (a b : Object) : Type 0 where
  pub blob_digest : a.blob_digest ≡ b.blob_digest
  pub size : a.size ≡ b.size
  pub etag : a.etag ≡ b.etag
  pub content_type : a.content_type ≡ b.content_type
  pub metadata : a.metadata ≡ b.metadata
