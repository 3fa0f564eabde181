-- ===== src/Db/Balance/Uploads.antt =====
-- multipart.go: the books and the primary key of the table of blobs under multipart uploads.
use infra_lightwight_s3_serv.Prelude.{
  ℕ, ◌+◌, ◌-◌, leb, ◌==◌, not, ◌&&◌, Bytes, List, [], ◌∷◌, find, any, upserted, keep, weight,
  weight?, weight-upsert, weight-keep, Option, none, some, ok, err, if◌then◌else◌, ◌>>=◌, ◌≡◌, refl,
  arith, Ensures, Ensures-if, Ensures->>=, Ensures-both, ◌||◌, bytes_eq, Result-cases, Bool-cases,
  inl, inr, sym, subst,
}
use infra_lightwight_s3_serv.Db.Rows.{
  MultipartUpload, MultipartPart, Tables, Object, Error, Draw, check_violation,
  foreign_key_violation,
}
use infra_lightwight_s3_serv.Db.Blobs.{retain_blob, release_blob}
use infra_lightwight_s3_serv.Db.Current.{WriteOptions, read_current, located, supersede}
use infra_lightwight_s3_serv.Db.Objects.{put_object}
use infra_lightwight_s3_serv.Db.Multipart.{
  created_upload, create_multipart_upload, at_part, written_part, replaced_part, write_part,
  release_part, put_multipart_part, insert_by_number, by_number, list_multipart_parts,
  release_parts, delete_upload_row, release_upload, complete_multipart_upload,
  abort_multipart_upload, reap_each,
}
use infra_lightwight_s3_serv.Db.Balance.{
  tally, refcount, part_ref, Owing, IsBalanced, IsConsistent, Distinct,
}
use infra_lightwight_s3_serv.Db.Balance.Primitives.{refcount-retain, refcount-release}
use infra_lightwight_s3_serv.Db.Balance.Transactions.{put_object-IsConsistent}
use infra_lightwight_s3_serv.Db.Balance.Sweep.{Keyed}
use infra_lightwight_s3_serv.Db.Balance.Keys.{
  Keyed-retain, Keyed-release, put_object-IsKeyed, IsKeyed,
}

-- What every call keeps: the books, and the key of the table of blobs.
abbrev pub IsSound : Tables → Type 0
IsSound t = IsConsistent t × IsKeyed t

pub create_multipart_upload-IsSound :
    (now row : ℕ) (minted : Bytes) (upload : MultipartUpload) (db : Tables)
    → IsSound db
    → Ensures IsSound (create_multipart_upload now row minted upload db)
unfolding create_multipart_upload
create_multipart_upload-IsSound now row minted upload db c =
    let new = created_upload now row minted upload in
    elim (Bool-cases (
      any (λ (u : MultipartUpload). u.id == new.id || bytes_eq u.upload_id new.upload_id)
        db.uploads)) [
          | inl e ↦ rw (e, create_multipart_upload) tt
          | inr e ↦
              rw (e, create_multipart_upload)
                (record { balanced = c.0.balanced; distinct = c.0.distinct }, c.1)
        ]

written_balance :
    (e : Bytes) (now upload : ℕ) (part : MultipartPart) (o : Option MultipartPart)
    → part_ref e (upserted (written_part now upload part) (replaced_part now part) o)
      ≡ tally part.blob_digest e
unfolding written_part replaced_part
written_balance e now upload part none = refl
written_balance e now upload part (some p) = refl

release_part-IsBalanced :
    (o : Option MultipartPart) (db : Tables)
    → Owing (λ e. weight? (part_ref e) o) db
    → IsBalanced (release_part o db)
unfolding release_part
release_part-IsBalanced none db books = λ e. omega (arith, books e)
release_part-IsBalanced (some p) db books =
    λ e. omega (arith, books e, refcount-release p.blob_digest e db.blobs)

release_part_rows :
    (o : Option MultipartPart) (db : Tables)
    → ((release_part o db).versions ≡ db.versions)
      × (Keyed db.blobs → Keyed (release_part o db).blobs)
unfolding release_part
release_part_rows none db = (refl, λ k. k)
release_part_rows (some p) db = (refl, λ k. Keyed-release p.blob_digest db.blobs k)

write_part-Owing :
    (now upload : ℕ) (part : MultipartPart) (db : Tables)
    → IsBalanced db
    → Owing
        (λ e. weight? (part_ref e) (find (at_part upload part.part_number) db.parts))
        (write_part now upload part db)
unfolding write_part
write_part-Owing now upload part db books e = omega (
  arith,
  books e,
  refcount-retain now part.size part.blob_digest e db.blobs,
  written_balance e now upload part (find (at_part upload part.part_number) db.parts),
  weight-upsert (part_ref e) (at_part upload part.part_number) (written_part now upload part)
      (replaced_part now part) db.parts,
)

pub put_multipart_part-IsSound :
    (now upload : ℕ) (part : MultipartPart) (db : Tables)
    → IsSound db
    → Ensures IsSound (put_multipart_part now upload part db)
unfolding put_multipart_part
put_multipart_part-IsSound now upload part db (c, k) =
    let old = find (at_part upload part.part_number) db.parts in
    let (v, l) = release_part_rows old (write_part now upload part db) in
    Ensures-if {E = Error} IsSound (not (leb 1 part.part_number && leb part.part_number 10000))
      (err check_violation)
      (if not (any (λ (u : MultipartUpload). u.id == upload) db.uploads)
        then err foreign_key_violation
        else ok (release_part old (write_part now upload part db)))
      (λ _. tt)
      (λ _.
        Ensures-if {E = Error} IsSound
          (not (any (λ (u : MultipartUpload). u.id == upload) db.uploads))
          (err foreign_key_violation) (ok (release_part old (write_part now upload part db)))
          (λ _. tt)
          (λ _. (
            record {
              balanced =
                  release_part-IsBalanced old (write_part now upload part db)
                    (write_part-Owing now upload part db c.balanced);
              distinct = subst Distinct (sym v) c.distinct;
            },
            l (Keyed-retain now part.size part.blob_digest db.blobs k),
          )))

weight-insert_by_number :
    (w : MultipartPart → ℕ) (p : MultipartPart) (qs : List MultipartPart)
    → weight w (insert_by_number p qs) ≡ w p + weight w qs
unfolding insert_by_number weight
weight-insert_by_number w p [] = refl
weight-insert_by_number w p (q ∷ qs) = ground (arith, weight-insert_by_number w p qs)

weight-by_number :
    (w : MultipartPart → ℕ) (ps : List MultipartPart) → weight w (by_number ps) ≡ weight w ps
unfolding by_number weight
weight-by_number w [] = refl
weight-by_number w (p ∷ ps) =
    omega (arith, weight-insert_by_number w p (by_number ps), weight-by_number w ps)

release_parts-effect :
    (ps : List MultipartPart) (db : Tables)
    → ((release_parts ps db).objects ≡ db.objects)
      × ((release_parts ps db).versions ≡ db.versions)
      × ((release_parts ps db).parts ≡ db.parts)
      × (Keyed db.blobs → Keyed (release_parts ps db).blobs)
unfolding release_parts
release_parts-effect [] db = (refl, refl, refl, λ k. k)
release_parts-effect (p ∷ ps) db =
    let (o, v, q, k) =
      release_parts-effect ps (record db { blobs = release_blob p.blob_digest db.blobs }) in
    (o, v, q, λ h. k (Keyed-release p.blob_digest db.blobs h))

-- The parts that are released leave the counts that the rest makes up.
refcount-release_parts :
    (ps : List MultipartPart) (db : Tables) (e : Bytes)
    → refcount e (release_parts ps db).blobs ≡ refcount e db.blobs - weight (part_ref e) ps
unfolding release_parts weight
refcount-release_parts [] db e = omega arith
refcount-release_parts (p ∷ ps) db e = omega (
  arith,
  refcount-release p.blob_digest e db.blobs,
  refcount-release_parts ps (record db { blobs = release_blob p.blob_digest db.blobs }) e,
)

pub release_upload-IsSound :
    (upload : ℕ) (db : Tables) → IsSound db → IsSound (release_upload upload db)
unfolding release_upload delete_upload_row list_multipart_parts
release_upload-IsSound upload db (c, k) =
    let ps = list_multipart_parts upload db in
    let (o, v, q, l) = release_parts-effect ps db in
    (
      record {
        balanced = λ e.
            rw (o, v, q)
              (omega (
                arith,
                c.balanced e,
                refcount-release_parts ps db e,
                weight-by_number (part_ref e)
                    (keep (λ (p : MultipartPart). p.upload == upload) db.parts),
                weight-keep (part_ref e) (λ (p : MultipartPart). p.upload == upload) db.parts,
              ));
        distinct = rw v c.distinct;
      },
      l k,
    )

-- Completing an upload is a write of the object, and then the release of the upload.
pub complete_multipart_upload-put_object :
    (draw : Draw) (upload : ℕ) (object : Object) (opts : WriteOptions) (db : Tables)
    → complete_multipart_upload draw upload object opts db
      ≡ (put_object draw object opts db >>= (λ t. ok (release_upload upload t)))
unfolding complete_multipart_upload put_object
complete_multipart_upload-put_object draw upload object opts db =
    elim (Result-cases (
      supersede draw
        (located object.bucket_id object.key (read_current object.bucket_id object.key db)) opts
        (record db { blobs = retain_blob draw.now object.blob_digest object.size db.blobs }))) [
          | inl (r, e) ↦ rw (e, complete_multipart_upload, put_object) refl
          | inr (x, e) ↦ rw (e, complete_multipart_upload, put_object) refl
        ]

pub complete_multipart_upload-IsSound :
    (draw : Draw) (upload : ℕ) (object : Object) (opts : WriteOptions) (db : Tables)
    → IsSound db
    → Ensures IsSound (complete_multipart_upload draw upload object opts db)
complete_multipart_upload-IsSound draw upload object opts db (c, k) =
    subst (Ensures IsSound) (sym (complete_multipart_upload-put_object draw upload object opts db))
      (Ensures->>= {E = Error} {B = Tables} IsSound IsSound (put_object draw object opts db)
        (λ t. ok (release_upload upload t))
        (Ensures-both {E = Error} IsConsistent IsKeyed (put_object draw object opts db)
          (put_object-IsConsistent draw object opts db c)
          (put_object-IsKeyed draw object opts db k))
        (λ t h. release_upload-IsSound upload t h))

pub reap_each-IsSound :
    (us : List MultipartUpload) (s : ℕ × Tables) → IsSound s.1 → IsSound (reap_each us s).1
unfolding reap_each abort_multipart_upload
reap_each-IsSound [] s c = c
reap_each-IsSound (u ∷ us) (n, db) c =
    reap_each-IsSound us (n + 1, release_upload u.id db) (release_upload-IsSound u.id db c)
