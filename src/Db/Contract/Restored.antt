-- ===== src/Db/Contract/Restored.antt =====
-- versions.go: restoring a version over a current one.
use infra_lightwight_s3_serv.Prelude.{
  ℕ, false, Bytes, find, upserted, find-upsert, any, Option, none, some, ◌≡◌, refl, ok, ap, ◌∙◌,
  sym, Bool-cases, inl, inr, ok-injective, bytes_eq_refl, ◌==◌, ◌||◌,
}
use infra_lightwight_s3_serv.Db.Rows.{Tables, Object, ObjectVersion, Draw, at_key, at_version}
use infra_lightwight_s3_serv.Db.Versions.{
  record_version, insert_version, marker_has_no_blob, stored_version, retain_digest, get_version,
  restore_version, restore_digest, restore_contents, write_restored, restored_object,
  release_previous, restored_row, restored_over, restored_version,
}
use infra_lightwight_s3_serv.Db.Objects.{get_object}
use infra_lightwight_s3_serv.Db.Blobs.{retain_blob}
use infra_lightwight_s3_serv.Db.Contract.Preserved.{get_object_found}

insert_version_objects :
    (row : ObjectVersion) (db t : Tables) → insert_version row db ≡ ok t → t.objects ≡ db.objects
unfolding insert_version
insert_version_objects row db t h =
    elim (Bool-cases (
      any (λ v. v.id == row.id || at_version row.bucket_id row.key row.version_id v) db.versions)) [
        | inl e ↦ absurd (cc (rw (e, insert_version) at h))
        | inr e ↦ elim (Bool-cases (marker_has_no_blob row.is_delete_marker row.blob_digest)) [
          | inl m ↦
              ap (λ (x : Tables). x.objects) (sym (ok-injective (rw (e, m, insert_version) at h)))
          | inr m ↦ absurd (cc (rw (e, m, insert_version) at h))
        ]
      ]

retain_digest_objects :
    (now size : ℕ) (o : Option Bytes) (db : Tables)
    → (retain_digest now o size db).objects ≡ db.objects
unfolding retain_digest
retain_digest_objects now size none db = refl
retain_digest_objects now size (some d) db = refl

pub record_version_objects :
    (now row : ℕ) (minted : Bytes) (v : ObjectVersion) (db t : Tables)
    → record_version now row minted v db ≡ ok t
    → t.objects ≡ db.objects
unfolding record_version
record_version_objects now row minted v db t h =
    insert_version_objects (stored_version now row minted v)
      (retain_digest now v.blob_digest v.size db) t h
    ∙ retain_digest_objects now v.size v.blob_digest db

release_previous_objects :
    (o : Option Object) (db : Tables) → (release_previous o db).objects ≡ db.objects
unfolding release_previous
release_previous_objects none db = refl
release_previous_objects (some o) db = refl

restore_with_contents :
    (draw : Draw) (bucket key version actor digest : Bytes) (db : Tables) (v : ObjectVersion)
    → get_version bucket key version db ≡ ok v
    → v.is_delete_marker ≡ false
    → v.blob_digest ≡ some digest
    → restore_version draw bucket key version actor db
      ≡ restore_contents draw bucket key actor v digest db
unfolding restore_version
restore_with_contents draw bucket key version actor digest db v found live blob =
    rw (found, restore_version)
      (rw live (ap (λ b. restore_digest draw bucket key actor v b db) blob))

-- The row of the key after the restore.
written_over :
    (draw : Draw) (bucket key digest : Bytes) (v : ObjectVersion) (o : Object) (db : Tables)
    → find (at_key bucket key) db.objects ≡ some o
    → find
        (at_key bucket key)
        (write_restored draw (restored_object bucket key digest v) db).objects
      ≡ some (restored_over draw (restored_object bucket key digest v) o)
unfolding write_restored restored_object restored_row restored_over
written_over draw bucket key digest v o db there =
    find-upsert (at_key bucket key) (restored_row draw (restored_object bucket key digest v))
      (restored_over draw (restored_object bucket key digest v)) db.objects
      (rw (bytes_eq_refl bucket, bytes_eq_refl key)) (λ x. refl)
    ∙ ap
        (λ x. some (
          upserted (restored_row draw (restored_object bucket key digest v))
            (restored_over draw (restored_object bucket key digest v)) x))
        there

restore_contents_objects :
    (draw : Draw) (bucket key actor digest : Bytes) (v : ObjectVersion) (db t : Tables)
    → restore_contents draw bucket key actor v digest db ≡ ok t
    → t.objects
      ≡ (write_restored draw
          (restored_object bucket key digest v)
          (record db { blobs = retain_blob draw.now digest v.size db.blobs })).objects
unfolding restore_contents
restore_contents_objects draw bucket key actor digest v db t h =
    let written =
      write_restored draw (restored_object bucket key digest v)
        (record db { blobs = retain_blob draw.now digest v.size db.blobs }) in
    record_version_objects draw.now draw.recorded_row draw.recorded_version
      (restored_version bucket key actor v)
      (release_previous (find (at_key bucket key) db.objects) written) t h
    ∙ release_previous_objects (find (at_key bucket key) db.objects) written

get_object_of :
    (bucket key : Bytes) (db : Tables) (o : Object)
    → find (at_key bucket key) db.objects ≡ some o
    → get_object bucket key db ≡ ok o
unfolding get_object
get_object_of bucket key db o h = rw (h, get_object)

-- A restore over a current version, of a version with contents, that succeeds changes the bytes that
-- the current version's id stands for: afterwards the key has the digest, the size and the ETag of
-- the restored version under the id that the replaced version had.
pub restore_version_reuses_id :
    (draw : Draw) (bucket key version actor digest : Bytes) (db t : Tables) (v : ObjectVersion)
    (o : Object)
    → get_object bucket key db ≡ ok o
    → get_version bucket key version db ≡ ok v
    → v.is_delete_marker ≡ false
    → v.blob_digest ≡ some digest
    → restore_version draw bucket key version actor db ≡ ok t
    → (p : Object) × (get_object bucket key t ≡ ok p)
      × (p.version_id ≡ o.version_id)
      × (p.blob_digest ≡ digest)
      × (p.size ≡ v.size)
      × (p.etag ≡ v.etag)
unfolding restored_over restored_object
restore_version_reuses_id draw bucket key version actor digest db t v o there found live blob h =
    let retained = record db { blobs = retain_blob draw.now digest v.size db.blobs } in
    let done =
      sym (restore_with_contents draw bucket key version actor digest db v found live blob) ∙ h in
    (
      restored_over draw (restored_object bucket key digest v) o,
      get_object_of bucket key t (restored_over draw (restored_object bucket key digest v) o) (
          ap (find (at_key bucket key))
            (restore_contents_objects draw bucket key actor digest v db t done)
          ∙ written_over draw bucket key digest v o retained
              (get_object_found bucket key db o there)),
      refl,
      refl,
      refl,
      refl,
    )
