-- ===== src/Db/Balance.antt =====
-- internal/db/blobs.go, objects.go, versions.go: the books of the blobs. The count of each blob is
-- compared with the rows that name it, one primitive of the transactions at a time.
pub mod Primitives
pub mod Transactions
pub mod History
pub mod Restore
pub mod Sweep
pub mod Collect
pub mod Keys
pub mod Uploads
mod Tests
use infra_lightwight_s3_serv.Prelude.{
  ℕ, ◌+◌, ◌==◌, Bool, true, false, Bytes, List, [], ◌∷◌, bytes_eq, find, weight, weight?, any,
  Option, none, some, if◌then◌else◌, ◌≡◌,
}
use infra_lightwight_s3_serv.Db.Rows.{
  MultipartPart, Tables, Object, ObjectVersion, Blob, same_digest,
}

-- 1 where the digests agree.
unfoldable pub tally : Bytes → Bytes → ℕ
tally d e = if bytes_eq d e then 1 else 0

-- The count on record for a blob, 0 where there is no row.
unfoldable pub refcount : Bytes → List Blob → ℕ
refcount e bs = weight? (λ b. b.refcount) (find (same_digest e) bs)

abbrev pub object_ref : Bytes → Object → ℕ
object_ref e o = tally o.blob_digest e

abbrev pub version_ref : Bytes → ObjectVersion → ℕ
version_ref e v = weight? (λ d. tally d e) v.blob_digest

abbrev pub part_ref : Bytes → MultipartPart → ℕ
part_ref e p = tally p.blob_digest e

-- How many rows of the tables name the blob.
abbrev pub references : Bytes → Tables → ℕ
references e db =
    weight (object_ref e) db.objects
    + weight (version_ref e) db.versions
    + weight (part_ref e) db.parts

-- The counts are ahead of the rows by `extra`, as they are in the midst of a transaction.
abbrev pub Owing : (Bytes → ℕ) → Tables → Type 0
Owing extra db = (e : Bytes) → refcount e db.blobs ≡ references e db + extra e

-- The counts are the numbers of the rows.
abbrev pub IsBalanced : Tables → Type 0
IsBalanced db = (e : Bytes) → refcount e db.blobs ≡ references e db

-- No two versions share a row id.
abbrev pub Distinct : List ObjectVersion → Type 0
Distinct [] = Unit
Distinct (v ∷ vs) = (any (λ w. w.id == v.id) vs ≡ false) × Distinct vs

pub record IsConsistent (db : Tables) : Type 0 where
  pub balanced : IsBalanced db
  pub distinct : Distinct db.versions
