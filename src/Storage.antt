-- ===== src/Storage.antt =====
-- internal/storage/blobstore.go: the files of the blobs, each under the digest of its bytes. A file is
-- its digest and its bytes; the temporary files, the buffers and the failures of the disk are not
-- modelled. The two hash functions are parameters.
pub mod Contents
pub mod Tests
use infra_lightwight_s3_serv.Prelude.{
  ℕ, ◌==◌, Bool, true, false, not, ◌&&◌, Bytes, List, [], ◌∷◌, ◌++◌, bytes_eq, find, remove, all,
  length, hex_encode, is_lower_hex, Option, none, some, Result, ok, err, ◌>>=◌, if◌then◌else◌,
}

pub data StoreError : Type 0 where
  blob_not_found invalid_digest : StoreError

-- Blob, what Put returns.
pub record StoredBlob : Type 0 where
  pub digest : Bytes
  pub etag : Bytes
  pub size : ℕ

abbrev pub Files : Type 0
Files = List (Bytes × Bytes)

abbrev pub at_digest : Bytes → Bytes × Bytes → Bool
at_digest digest (name, bytes) = bytes_eq name digest

unfoldable pub valid_digest : Bytes → Bool
valid_digest digest = length digest == 64 && all is_lower_hex digest

unfoldable pub open_blob : Bytes → Files → Result StoreError Bytes
unfolding valid_digest
open_blob digest files =
    if not (valid_digest digest) then err invalid_digest else elim (find (at_digest digest) files) [
      | none ↦ err blob_not_found
      | some (name, bytes) ↦ ok bytes
    ]

unfoldable pub stat_blob : Bytes → Files → Result StoreError ℕ
unfolding valid_digest
stat_blob digest files =
    if not (valid_digest digest) then err invalid_digest else elim (find (at_digest digest) files) [
      | none ↦ err blob_not_found
      | some (name, bytes) ↦ ok (length bytes)
    ]

-- Removing an absent blob succeeds.
unfoldable pub remove_blob : Bytes → Files → Result StoreError Files
unfolding valid_digest
remove_blob digest files =
    if not (valid_digest digest) then err invalid_digest else ok (remove (at_digest digest) files)

unfoldable pub blob_exists : Bytes → Files → Result StoreError Bool
unfolding valid_digest
blob_exists digest files =
    if not (valid_digest digest)
    then err invalid_digest
    else ok (elim (find (at_digest digest) files) [ none ↦ false | some f ↦ true ])

module _ (sha256 md5 : Bytes → Bytes) where
  -- The digest that a blob is filed under: the one that the caller knows, or the hash of the bytes.
  unfoldable pub digest_of : Bytes → Bytes → Bytes
  digest_of bytes known_digest =
      if bytes_eq known_digest [] then hex_encode (sha256 bytes) else known_digest

  -- The rename, or nothing where the digest is on disk.
  unfoldable pub commit : Bytes → Bytes → Files → Files
  commit digest bytes files = elim (find (at_digest digest) files) [
    | none ↦ (digest, bytes) ∷ files
    | some f ↦ files
  ]

  -- Put, after the body was read to its end.
  unfoldable pub put_blob : Bytes → Bytes → Files → StoredBlob × Files
  unfolding digest_of commit
  put_blob bytes known_digest files =
      let digest = digest_of bytes known_digest in
      (
        record { digest = digest; etag = hex_encode (md5 bytes); size = length bytes },
        commit digest bytes files,
      )

  -- The files that io.MultiReader joins, all opened before the first is read.
  unfoldable pub open_all : List Bytes → Files → Result StoreError Bytes
  unfolding open_blob
  open_all [] files = ok []
  open_all (digest ∷ digests) files = do
    bytes ← open_blob digest files
    rest ← open_all digests files
    ok (bytes ++ rest)

  unfoldable pub concat : List Bytes → Files → Result StoreError (StoredBlob × Files)
  unfolding open_all put_blob
  concat digests files = open_all digests files >>= λ bytes. ok (put_blob bytes [] files)
