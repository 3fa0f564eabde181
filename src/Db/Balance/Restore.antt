-- ===== src/Db/Balance/Restore.antt =====
-- versions.go: RestoreVersion and the books.
use infra_lightwight_s3_serv.Prelude.{
  Bytes, find, weight?, Option, none, some, ◌≡◌, refl, arith, err, Ensures, weight-upsert, inl, inr,
  Result-cases, Ensures-if, Ensures-map, sym, subst,
}
use infra_lightwight_s3_serv.Db.Rows.{
  Tables, Object, ObjectVersion, Draw, Error, at_key, version_not_found,
}
use infra_lightwight_s3_serv.Db.Blobs.{retain_blob}
use infra_lightwight_s3_serv.Db.Versions.{
  record_version, restore_version, restore_digest, restore_contents, write_restored,
  restored_object, release_previous, get_version, restored_row, restored_over, restored_version,
}
use infra_lightwight_s3_serv.Db.Balance.{tally, object_ref, Owing, Distinct, IsConsistent}
use infra_lightwight_s3_serv.Db.Balance.Primitives.{
  Recorded, record_version-Recorded, refcount-release, refcount-retain,
}
use infra_lightwight_s3_serv.Db.Balance.Transactions.{nothing, upserted_ref}

release_previous-Owing :
    (o : Option Object) (db : Tables)
    → Owing (λ e. weight? (object_ref e) o) db
    → Owing nothing (release_previous o db)
unfolding release_previous
release_previous-Owing none db books = λ e. omega (arith, books e)
release_previous-Owing (some o) db books =
    λ e. omega (arith, books e, refcount-release o.blob_digest e db.blobs)

release_previous_rows :
    (o : Option Object) (db : Tables) → (release_previous o db).versions ≡ db.versions
unfolding release_previous
release_previous_rows none db = refl
release_previous_rows (some o) db = refl

write_restored-Owing :
    (draw : Draw) (new : Object) (db : Tables)
    → Owing (tally new.blob_digest) db
    → Owing
        (λ e. weight? (object_ref e) (find (at_key new.bucket_id new.key) db.objects))
        (write_restored draw new db)
unfolding write_restored
write_restored-Owing draw new db books e = omega (
  arith,
  books e,
  weight-upsert (object_ref e) (at_key new.bucket_id new.key) (restored_row draw new)
      (restored_over draw new) db.objects,
  upserted_ref e (restored_row draw new) (restored_over draw new)
      (find (at_key new.bucket_id new.key) db.objects) (λ x. refl),
)

restore_contents-IsConsistent :
    (draw : Draw) (bucket key actor : Bytes) (v : ObjectVersion) (digest : Bytes) (db : Tables)
    → IsConsistent db
    → Ensures IsConsistent (restore_contents draw bucket key actor v digest db)
unfolding restore_contents
restore_contents-IsConsistent draw bucket key actor v digest db c =
    Ensures-map {E = Error} (Recorded nothing released) IsConsistent
      (record_version draw.now draw.recorded_row draw.recorded_version
        (restored_version bucket key actor v) released)
      (λ t r. record { balanced = λ x. omega (arith, r.1 x); distinct = r.2 })
      (record_version-Recorded nothing draw.now draw.recorded_row draw.recorded_version
        (restored_version bucket key actor v) released
        (release_previous-Owing (find (at_key bucket key) db.objects) written (
          write_restored-Owing draw (restored_object bucket key digest v) retained
            (λ x. omega (arith, c.balanced x, refcount-retain draw.now v.size digest x db.blobs))))
        (subst Distinct (sym (release_previous_rows (find (at_key bucket key) db.objects) written))
          c.distinct))
  where
    retained : Tables
    retained = record db { blobs = retain_blob draw.now digest v.size db.blobs }

    written : Tables
    written = write_restored draw (restored_object bucket key digest v) retained

    released : Tables
    released = release_previous (find (at_key bucket key) db.objects) written

restore_digest-IsConsistent :
    (draw : Draw) (bucket key actor : Bytes) (v : ObjectVersion) (o : Option Bytes) (db : Tables)
    → IsConsistent db
    → Ensures IsConsistent (restore_digest draw bucket key actor v o db)
unfolding restore_digest
restore_digest-IsConsistent draw bucket key actor v none db c = tt
restore_digest-IsConsistent draw bucket key actor v (some digest) db c =
    restore_contents-IsConsistent draw bucket key actor v digest db c

-- RestoreVersion keeps the counts equal to the numbers of rows that name each blob.
pub restore_version-IsConsistent :
    (draw : Draw) (bucket key version actor : Bytes) (db : Tables)
    → IsConsistent db
    → Ensures IsConsistent (restore_version draw bucket key version actor db)
unfolding restore_version
restore_version-IsConsistent draw bucket key version actor db c =
    elim (Result-cases (get_version bucket key version db)) [
      | inl (v, e) ↦
          rw (e, restore_version)
            (Ensures-if {E = Error} IsConsistent v.is_delete_marker (err version_not_found)
              (restore_digest draw bucket key actor v v.blob_digest db) (λ _. tt)
              (λ _. restore_digest-IsConsistent draw bucket key actor v v.blob_digest db c))
      | inr (x, e) ↦ rw (e, restore_version) tt
    ]
