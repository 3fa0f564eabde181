-- ===== src/Db/Multipart.antt =====
-- internal/db/multipart.go: uploads in progress and their parts. The lock of a part orders the
-- transactions on it.
use infra_lightwight_s3_serv.Prelude.{
  ℕ, ◌+◌, leb, ltb, ◌==◌, Bool, not, ◌&&◌, ◌||◌, Bytes, List, [], ◌∷◌, bytes_eq, bytes_lt, find,
  remove, upsert, any, keep, take, Option, none, some, Result, ok, err, if◌then◌else◌, ◌>>=◌,
}
use infra_lightwight_s3_serv.Db.Rows.{
  MultipartUpload, MultipartPart, Tables, Object, Error, Draw, upload_not_found, unique_violation,
  check_violation, foreign_key_violation,
}
use infra_lightwight_s3_serv.Db.Blobs.{retain_blob, release_blob}
use infra_lightwight_s3_serv.Db.Current.{WriteOptions, read_current, located, supersede}
use infra_lightwight_s3_serv.Db.Objects.{write_object, release_current}

-- The row that CreateMultipartUpload inserts: an empty upload id is minted.
unfoldable pub created_upload : ℕ → ℕ → Bytes → MultipartUpload → MultipartUpload
created_upload now row minted upload = record upload {
  id = row;
  initiated_at = now;
  upload_id = if bytes_eq upload.upload_id [] then minted else upload.upload_id;
}

unfoldable pub create_multipart_upload :
    ℕ → ℕ → Bytes → MultipartUpload → Tables → Result Error Tables
unfolding created_upload
create_multipart_upload now row minted upload db =
    let new = created_upload now row minted upload in
    if any (λ (u : MultipartUpload). u.id == new.id || bytes_eq u.upload_id new.upload_id)
      db.uploads
    then err unique_violation
    else ok (record db { uploads = new ∷ db.uploads })

unfoldable pub get_multipart_upload : Bytes → Bytes → Tables → Result Error MultipartUpload
get_multipart_upload bucket upload_id db =
    elim (find
      (λ (u : MultipartUpload). bytes_eq u.upload_id upload_id && bytes_eq u.bucket_id bucket)
      db.uploads) [ none ↦ err upload_not_found | some u ↦ ok u ]

-- WHERE upload_id = $1 AND part_number = $2.
abbrev pub at_part : ℕ → ℕ → MultipartPart → Bool
at_part upload number p = p.upload == upload && p.part_number == number

-- The row that PutMultipartPart inserts, and its DO UPDATE SET.
unfoldable pub written_part : ℕ → ℕ → MultipartPart → MultipartPart
written_part now upload part = record part { upload = upload; uploaded_at = now }

unfoldable pub replaced_part : ℕ → MultipartPart → MultipartPart → MultipartPart
replaced_part now part p = record p {
  blob_digest = part.blob_digest;
  size = part.size;
  etag = part.etag;
  uploaded_at = now;
}

unfoldable pub release_part : Option MultipartPart → Tables → Tables
unfolding release_blob
release_part none db = db
release_part (some p) db = record db { blobs = release_blob p.blob_digest db.blobs }

-- The tables with the part written, before the superseded one is released.
unfoldable pub write_part : ℕ → ℕ → MultipartPart → Tables → Tables
unfolding retain_blob written_part replaced_part
write_part now upload part db = record db {
  blobs = retain_blob now part.blob_digest part.size db.blobs;
  parts =
      upsert (at_part upload part.part_number) (written_part now upload part)
        (replaced_part now part) db.parts;
}

-- The schema wants the upload's row, and a part number from 1 to 10000.
unfoldable pub put_multipart_part : ℕ → ℕ → MultipartPart → Tables → Result Error Tables
unfolding write_part release_part
put_multipart_part now upload part db =
    if not (leb 1 part.part_number && leb part.part_number 10000)
    then err check_violation
    else if not (any (λ (u : MultipartUpload). u.id == upload) db.uploads)
    then err foreign_key_violation
    else ok (
        release_part (find (at_part upload part.part_number) db.parts)
          (write_part now upload part db))

-- ORDER BY part_number.
unfoldable pub insert_by_number : MultipartPart → List MultipartPart → List MultipartPart
insert_by_number p [] = p ∷ []
insert_by_number p (q ∷ qs) =
    if ltb q.part_number p.part_number then q ∷ insert_by_number p qs else p ∷ q ∷ qs

unfoldable pub by_number : List MultipartPart → List MultipartPart
unfolding insert_by_number
by_number [] = []
by_number (p ∷ ps) = insert_by_number p (by_number ps)

unfoldable pub list_multipart_parts : ℕ → Tables → List MultipartPart
unfolding by_number
list_multipart_parts upload db =
    by_number (keep (λ (p : MultipartPart). p.upload == upload) db.parts)

-- ORDER BY key, initiated_at.
unfoldable pub insert_upload : MultipartUpload → List MultipartUpload → List MultipartUpload
insert_upload u [] = u ∷ []
insert_upload u (v ∷ vs) =
    if bytes_lt v.key u.key || (bytes_eq v.key u.key && ltb v.initiated_at u.initiated_at)
    then v ∷ insert_upload u vs
    else u ∷ v ∷ vs

unfoldable pub in_key_order : List MultipartUpload → List MultipartUpload
unfolding insert_upload
in_key_order [] = []
in_key_order (u ∷ us) = insert_upload u (in_key_order us)

unfoldable pub list_multipart_uploads : Bytes → Bytes → ℕ → Tables → List MultipartUpload
unfolding in_key_order
list_multipart_uploads bucket key_marker limit db = take limit (
    in_key_order (
      keep (λ (u : MultipartUpload). bytes_eq u.bucket_id bucket && bytes_lt key_marker u.key)
        db.uploads))

unfoldable pub release_parts : List MultipartPart → Tables → Tables
unfolding release_blob
release_parts [] db = db
release_parts (p ∷ ps) db =
    release_parts ps (record db { blobs = release_blob p.blob_digest db.blobs })

-- DELETE FROM multipart_uploads; the parts cascade.
unfoldable pub delete_upload_row : ℕ → Tables → Tables
delete_upload_row upload db = record db {
  uploads = remove (λ (u : MultipartUpload). u.id == upload) db.uploads;
  parts = keep (λ (p : MultipartPart). not (p.upload == upload)) db.parts;
}

unfoldable pub release_upload : ℕ → Tables → Tables
unfolding list_multipart_parts release_parts delete_upload_row
release_upload upload db =
    delete_upload_row upload (release_parts (list_multipart_parts upload db) db)

unfoldable pub complete_multipart_upload :
    Draw → ℕ → Object → WriteOptions → Tables → Result Error Tables
unfolding located read_current retain_blob supersede write_object release_current release_upload
complete_multipart_upload draw upload object opts db = do
  let previous = located object.bucket_id object.key (read_current object.bucket_id object.key db)
  (version, db') ←
      supersede draw previous opts
        (record db { blobs = retain_blob draw.now object.blob_digest object.size db.blobs })
  ok (
      release_upload upload
        (release_current previous (write_object draw (record object { version_id = version }) db')))

unfoldable pub abort_multipart_upload : ℕ → Tables → Tables
unfolding release_upload
abort_multipart_upload upload db = release_upload upload db

-- SELECT id … WHERE initiated_at < now() - age ORDER BY initiated_at LIMIT.
unfoldable pub insert_by_start : MultipartUpload → List MultipartUpload → List MultipartUpload
insert_by_start u [] = u ∷ []
insert_by_start u (v ∷ vs) =
    if ltb v.initiated_at u.initiated_at then v ∷ insert_by_start u vs else u ∷ v ∷ vs

unfoldable pub by_start : List MultipartUpload → List MultipartUpload
unfolding insert_by_start
by_start [] = []
by_start (u ∷ us) = insert_by_start u (by_start us)

unfoldable pub abandoned_uploads : ℕ → ℕ → ℕ → Tables → List MultipartUpload
unfolding by_start
abandoned_uploads now age limit db =
    take limit
      (by_start (keep (λ (u : MultipartUpload). ltb (u.initiated_at + age) now) db.uploads))

-- The loop, each round a transaction, with the number of uploads that are discarded.
unfoldable pub reap_each : List MultipartUpload → ℕ × Tables → ℕ × Tables
unfolding abort_multipart_upload
reap_each [] s = s
reap_each (u ∷ us) (reaped, db) = reap_each us (reaped + 1, abort_multipart_upload u.id db)

unfoldable pub reap_abandoned_uploads : ℕ → ℕ → ℕ → Tables → ℕ × Tables
unfolding abandoned_uploads reap_each
reap_abandoned_uploads now age limit db = reap_each (abandoned_uploads now age limit db) (0, db)
