-- ===== src/S3Api/Multipart.antt =====
-- internal/s3api/multipart.go: the handlers of uploads in parts, on the files of the blobs and the
-- tables. The body of a request is its bytes, and a completion request the parts that its document
-- lists. md5 and sha256 are parameters.
pub mod Selection
pub mod Completion
mod Tests
use infra_lightwight_s3_serv.Prelude.{
  ℕ, ◌+◌, ◌-◌, ◌==◌, ltb, leb, Bool, true, false, not, ◌&&◌, ◌||◌, Bytes, List, [], ◌∷◌, ◌++◌, map,
  bytes_eq, last, take, length, weight, decimal, hex_encode, hex_decode, ℤ, pos, negsuc, atoi,
  Option, none, some, Result, ok, err, ◌>>=◌, if◌then◌else◌,
}
use infra_lightwight_s3_serv.Db.Rows.{MultipartUpload, MultipartPart, Object, Tables, Draw, Error}
use infra_lightwight_s3_serv.Db.Current.{WriteOptions}
use infra_lightwight_s3_serv.Db.Multipart.{
  get_multipart_upload, put_multipart_part, list_multipart_parts, complete_multipart_upload,
}
use infra_lightwight_s3_serv.Storage.{Files, StoredBlob, StoreError, put_blob, concat}

-- The errors that follow the assembly of the blob say which files it left.
pub data UploadError : Type 0 where
  no_such_upload invalid_argument no_parts invalid_part_order : UploadError
  part_not_uploaded part_mismatch : ℕ → UploadError
  entity_too_small : ℕ → ℕ → UploadError
  assembly_failed : StoreError → UploadError
  wrong_size : Files → UploadError
  failed : Error → Files → UploadError

pub record CompletedPart : Type 0 where
  pub part_number : ℤ
  pub etag : Bytes

unfoldable pub in_part_range : ℤ → Option ℕ
in_part_range (pos n) = if leb 1 n && leb n 10000 then some n else none
in_part_range (negsuc n) = none

unfoldable pub parse_part_number : Bytes → Option ℕ
unfolding atoi in_part_range
parse_part_number raw = elim (atoi raw) [ none ↦ none | some n ↦ in_part_range n ]

unfoldable pub is_quote : Option ℕ → Bool
is_quote none = false
is_quote (some c) = c == b'"'

-- The first byte, the bytes after it, and the last of them.
unfoldable pub unquote_etag : Bytes → Bytes
unfolding is_quote
unquote_etag [] = []
unquote_etag (c ∷ s) =
    if leb 1 (length s) && (c == b'"' && is_quote (last s)) then take (length s - 1) s else c ∷ s

abbrev pub min_part_size : ℕ
min_part_size = 5242880

-- byNumber: of two rows with one number the map holds the later one.
unfoldable pub uploaded_part : ℕ → List MultipartPart → Option MultipartPart
uploaded_part n [] = none
uploaded_part n (p ∷ ps) = elim (uploaded_part n ps) [
  | some q ↦ some q
  | none ↦ if p.part_number == n then some p else none
]

-- What the loop of selectParts does at a part; `more` says that another one follows.
unfoldable pub select_numbered :
    ℕ → ℕ → Bytes → Bool → List MultipartPart → Result UploadError MultipartPart
unfolding uploaded_part unquote_etag
select_numbered previous n etag more uploaded =
    if leb n previous then err invalid_part_order else elim (uploaded_part n uploaded) [
      | none ↦ err (part_not_uploaded n)
      | some have ↦
          if not (bytes_eq (unquote_etag etag) have.etag)
          then err (part_mismatch n)
          else if more && ltb have.size min_part_size
          then err (entity_too_small n have.size)
          else ok have
    ]

unfoldable pub select_part :
    ℕ → ℤ → Bytes → Bool → List MultipartPart → Result UploadError MultipartPart
unfolding select_numbered
select_part previous (pos n) etag more uploaded = select_numbered previous n etag more uploaded
select_part previous (negsuc n) etag more uploaded = err invalid_part_order

abbrev pub number_of : ℤ → ℕ
number_of (pos n) = n
number_of (negsuc n) = 0

abbrev pub follows : List CompletedPart → Bool
follows [] = false
follows (p ∷ ps) = true

unfoldable pub select_from :
    ℕ → List CompletedPart → List MultipartPart → Result UploadError (List MultipartPart)
unfolding select_part
select_from previous [] uploaded = ok []
select_from previous (want ∷ wants) uploaded = do
  have ← select_part previous want.part_number want.etag (follows wants) uploaded
  rest ← select_from (number_of want.part_number) wants uploaded
  ok (have ∷ rest)

unfoldable pub select_parts :
    List CompletedPart → List MultipartPart → Result UploadError (List MultipartPart)
unfolding select_from
select_parts requested uploaded = select_from 0 requested uploaded

-- The bytes of the digests, one after another; a digest that is not hexadecimal counts as text.
unfoldable pub raw_digests : List MultipartPart → Bytes
unfolding hex_decode
raw_digests [] = []
raw_digests (p ∷ ps) = elim (hex_decode p.etag) [ none ↦ p.etag | some raw ↦ raw ] ++ raw_digests ps

unfoldable pub require_upload : Bytes → Bytes → Tables → Result UploadError MultipartUpload
unfolding get_multipart_upload
require_upload bucket upload_id db = elim (get_multipart_upload bucket upload_id db) [
  | ok upload ↦ ok upload
  | err e ↦ err no_such_upload
]

abbrev pub total_size : List MultipartPart → ℕ
total_size parts = weight (λ (p : MultipartPart). p.size) parts

module _ (sha256 md5 : Bytes → Bytes) where
  unfoldable pub composite_etag : List MultipartPart → Bytes
  unfolding raw_digests
  composite_etag parts = hex_encode (md5 (raw_digests parts)) ++ (b'-' ∷ decimal (length parts))

  unfoldable pub recorded : Files → Result Error Tables → Result UploadError (Files × Tables)
  recorded files (ok db) = ok (files, db)
  recorded files (err e) = err (failed e files)

  -- handleUploadPart.
  unfoldable pub upload_part :
      ℕ
      → Bytes
      → Bytes
      → Bytes
      → Bytes
      → Bytes
      → Files × Tables
      → Result UploadError (Files × Tables)
  unfolding parse_part_number require_upload recorded put_blob put_multipart_part
  upload_part now bucket upload_id raw_number body trusted_digest (files, db) =
      elim (parse_part_number raw_number) [
        | none ↦ err invalid_argument
        | some n ↦ require_upload bucket upload_id db >>= λ upload.
            let (blob, files') = put_blob sha256 md5 body trusted_digest files in
            recorded files' (
              put_multipart_part now upload.id
                (record {
                  upload = upload.id;
                  part_number = n;
                  blob_digest = blob.digest;
                  size = blob.size;
                  etag = blob.etag;
                  uploaded_at = now;
                })
                db)
      ]

  unfoldable pub assemble : List MultipartPart → Files → Result UploadError (StoredBlob × Files)
  unfolding concat
  assemble parts files =
      elim (concat sha256 md5 (map (λ (p : MultipartPart). p.blob_digest) parts) files) [
        | ok r ↦ ok r
        | err e ↦ err (assembly_failed e)
      ]

  -- The object of a completed upload.
  unfoldable pub completed_object :
      Bytes → MultipartUpload → StoredBlob → List MultipartPart → Object
  unfolding composite_etag
  completed_object bucket upload blob parts = record {
    id = 0;
    bucket_id = bucket;
    key = upload.key;
    blob_digest = blob.digest;
    size = blob.size;
    etag = composite_etag parts;
    content_type = upload.content_type;
    metadata = upload.metadata;
    version_id = [];
    created_at = 0;
    updated_at = 0;
  }

  unfoldable pub complete_assembled :
      Draw
      → Bytes
      → MultipartUpload
      → List MultipartPart
      → WriteOptions
      → Tables
      → StoredBlob × Files
      → Result UploadError (Files × Tables)
  unfolding completed_object recorded complete_multipart_upload
  complete_assembled draw bucket upload parts opts db (blob, files) =
      if not (blob.size == total_size parts)
      then err (wrong_size files)
      else recorded files (
          complete_multipart_upload draw upload.id (completed_object bucket upload blob parts) opts
            db)

  -- handleCompleteMultipartUpload.
  unfoldable pub complete_upload :
      Draw
      → Bytes
      → Bytes
      → List CompletedPart
      → WriteOptions
      → Files × Tables
      → Result UploadError (Files × Tables)
  unfolding require_upload select_parts list_multipart_parts assemble complete_assembled
  complete_upload draw bucket upload_id requested opts (files, db) = do
    upload ← require_upload bucket upload_id db
    parts ←
        (if follows requested
          then select_parts requested (list_multipart_parts upload.id db)
          else err no_parts)
    joined ← assemble parts files
    complete_assembled draw bucket upload parts opts db joined
