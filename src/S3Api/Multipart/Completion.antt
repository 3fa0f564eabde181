-- ===== src/S3Api/Multipart/Completion.antt =====
-- internal/s3api/multipart.go: what a completed upload leaves under its key.
use infra_lightwight_s3_serv.Prelude.{
  ℕ, ltb, ◌==◌, ==_iff, true, Bytes, List, [], ◌∷◌, map, all, length, Result, ok, err, ◌>>=◌,
  >>=-ok, ok-injective, Result-cases, if◌then◌else◌, ◌≡◌, refl, Bool-cases, inl, inr, sym, ap, ◌∙◌,
  subst, Memᴰ,
}
use infra_lightwight_s3_serv.Db.Rows.{MultipartUpload, MultipartPart, Object, Tables, Draw, Error}
use infra_lightwight_s3_serv.Db.Current.{WriteOptions}
use infra_lightwight_s3_serv.Db.Objects.{get_object, put_object}
use infra_lightwight_s3_serv.Db.Multipart.{
  list_multipart_parts, complete_multipart_upload, release_upload, release_parts, delete_upload_row,
}
use infra_lightwight_s3_serv.Db.Balance.Uploads.{complete_multipart_upload-put_object}
use infra_lightwight_s3_serv.Db.Contract.{SameContents}
use infra_lightwight_s3_serv.Db.Contract.Writes.{get_object-put_object}
use infra_lightwight_s3_serv.Storage.{Files, StoredBlob, open_blob, open_all, concat}
use infra_lightwight_s3_serv.Storage.Contents.{IsAddressed, concat-open_blob}
use infra_lightwight_s3_serv.S3Api.Multipart.{
  CompletedPart, no_parts, select_parts, follows, require_upload, total_size, composite_etag,
  recorded, assemble, completed_object, complete_assembled, complete_upload,
}

release_parts_objects :
    (ps : List MultipartPart) (db : Tables) → (release_parts ps db).objects ≡ db.objects
unfolding release_parts
release_parts_objects [] db = refl
release_parts_objects (p ∷ ps) db = release_parts_objects ps _

release_upload_objects :
    (upload : ℕ) (db : Tables) → (release_upload upload db).objects ≡ db.objects
unfolding release_upload delete_upload_row
release_upload_objects upload db = release_parts_objects (list_multipart_parts upload db) db

get_object-release_upload :
    (bucket key : Bytes) (upload : ℕ) (db : Tables)
    → get_object bucket key (release_upload upload db) ≡ get_object bucket key db
unfolding get_object
get_object-release_upload bucket key upload db = rw (release_upload_objects upload db) refl

chosen :
    (requested : List CompletedPart) (uploaded parts : List MultipartPart)
    → (if follows requested then select_parts requested uploaded else err no_parts) ≡ ok parts
    → select_parts requested uploaded ≡ ok parts
chosen [] uploaded parts h = absurd (cc)
chosen (w ∷ ws) uploaded parts h = h

module _ (sha256 md5 : Bytes → Bytes) where
  recorded_inversion :
      (files files' : Files) (r : Result Error Tables) (t : Tables)
      → recorded sha256 md5 files r ≡ ok (files', t)
      → (r ≡ ok t) × (files' ≡ files)
  unfolding recorded
  recorded_inversion files files' (ok db) t h =
      let e = ok-injective h in
      (ap ok (ap (λ (x : Files × Tables). x.1) e), sym (ap (λ (x : Files × Tables). x.0) e))
  recorded_inversion files files' (err e) t h = absurd (cc)

  complete_assembled_object :
      (draw : Draw) (bucket : Bytes) (upload : MultipartUpload) (parts : List MultipartPart)
      (opts : WriteOptions) (db t : Tables) (blob : StoredBlob) (files files' : Files)
      → complete_assembled sha256 md5 draw bucket upload parts opts db (blob, files)
        ≡ ok (files', t)
      → (o : Object) × (get_object bucket upload.key t ≡ ok o)
        × SameContents o (completed_object sha256 md5 bucket upload blob parts)
        × (files' ≡ files)
        × (blob.size ≡ total_size parts)
  unfolding complete_assembled
  complete_assembled_object draw bucket upload parts opts db t blob files files' h =
      elim (Bool-cases (blob.size == total_size parts)) [
        | inr e ↦ absurd (cc (rw (e, complete_assembled) at h))
        | inl e ↦
            let object : Object = completed_object sha256 md5 bucket upload blob parts in
            let (done, kept) =
              recorded_inversion files files'
                (complete_multipart_upload draw upload.id object opts db) t
                (rw (e, complete_assembled) at h) in
            let written : (put_object draw object opts db
                  >>= (λ u. ok (release_upload upload.id u)))
                ≡ ok t =
              sym (complete_multipart_upload-put_object draw upload.id object opts db) ∙ done in
            let (u, put, released) =
              >>=-ok (put_object draw object opts db) (λ u. ok (release_upload upload.id u))
                written in
            let (o, found, same, id, time) = get_object-put_object draw object opts db u put in
            (
              o,
              subst (λ x. get_object bucket upload.key x ≡ ok o) (ok-injective released)
                  (get_object-release_upload bucket upload.key upload.id u ∙ found),
              same,
              kept,
              (==_iff blob.size (total_size parts)).0 e,
            )
      ]

  assemble-concat :
      (parts : List MultipartPart) (files : Files) (r : StoredBlob × Files)
      → assemble sha256 md5 parts files ≡ ok r
      → concat sha256 md5 (map (λ (p : MultipartPart). p.blob_digest) parts) files ≡ ok r
  unfolding assemble
  assemble-concat parts files r h =
      elim (Result-cases
        (concat sha256 md5 (map (λ (p : MultipartPart). p.blob_digest) parts) files)) [
          | inl (q, e) ↦ e ∙ ap ok (ok-injective (rw (e, assemble) at h))
          | inr (x, e) ↦ absurd (cc (rw (e, assemble) at h))
        ]

  module _ (sized : (x : Bytes) → length (sha256 x) ≡ 32)
      (octets : (x : Bytes) → all (λ c. ltb c 256) (sha256 x) ≡ true) where
    -- Completing an upload that succeeds selected the requested parts and found their bytes, and
    -- GetObject then finds under the key of the upload an object with the composite ETag of the parts
    -- and their total size, whose blob is read back as the parts' bytes one after another. This is for
    -- addressed files, where no join of stored bytes has the hash of another file.
    pub complete_upload_object :
        (draw : Draw) (bucket upload_id : Bytes) (requested : List CompletedPart)
        (opts : WriteOptions) (files files' : Files) (db t : Tables)
        → IsAddressed sha256 files
        → ((digests : List Bytes) (bytes : Bytes) (f : Bytes × Bytes)
            → open_all sha256 md5 digests files ≡ ok bytes
            → Memᴰ f files
            → sha256 f.1 ≡ sha256 bytes
            → f.1 ≡ bytes)
        → complete_upload sha256 md5 draw bucket upload_id requested opts (files, db)
          ≡ ok (files', t)
        → (upload : MultipartUpload) × (parts : List MultipartPart) × (bytes : Bytes) × (o : Object)
          × (require_upload bucket upload_id db ≡ ok upload)
          × (select_parts requested (list_multipart_parts upload.id db) ≡ ok parts)
          × (open_all sha256 md5 (map (λ (p : MultipartPart). p.blob_digest) parts) files
              ≡ ok bytes)
          × (get_object bucket upload.key t ≡ ok o)
          × (o.etag ≡ composite_etag sha256 md5 parts)
          × (o.size ≡ total_size parts)
          × (length bytes ≡ total_size parts)
          × (open_blob o.blob_digest files' ≡ ok bytes)
    unfolding complete_upload completed_object
    complete_upload_object draw bucket upload_id requested opts files files' db t a apart h =
        let (upload, e, h1) = >>=-ok (require_upload bucket upload_id db) (λ upload. _) h in
        let (parts, f, h2) =
          >>=-ok
            (if follows requested
              then select_parts requested (list_multipart_parts upload.id db)
              else err no_parts)
            (λ parts. _) h1 in
        let ((blob, stored), g, h3) =
          >>=-ok (assemble sha256 md5 parts files)
            (λ joined. complete_assembled sha256 md5 draw bucket upload parts opts db joined) h2 in
        let digests : List Bytes = map (λ (p : MultipartPart). p.blob_digest) parts in
        let (bytes, opened, back, size, digest) =
          concat-open_blob sha256 md5 sized octets digests files stored blob a (apart digests)
            (assemble-concat parts files (blob, stored) g) in
        let (o, found, same, kept, total) =
          complete_assembled_object draw bucket upload parts opts db t blob stored files' h3 in
        (
          upload,
          parts,
          bytes,
          o,
          e,
          chosen requested (list_multipart_parts upload.id db) parts f,
          opened,
          found,
          same.etag,
          same.size ∙ total,
          sym size ∙ total,
          subst (λ x. open_blob o.blob_digest x ≡ ok bytes) (sym kept)
              (subst (λ d. open_blob d stored ≡ ok bytes) (sym same.blob_digest) back),
        )
