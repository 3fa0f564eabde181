-- ===== src/Db/Contract/Nulls.antt =====
-- current.go: a key that has both a stored null version and a current one.
use infra_lightwight_s3_serv.Prelude.{
  ℕ, ◌==◌, Bool, true, ◌||◌, Bytes, List, [], ◌∷◌, bytes_eq, any, Option, none, some, ◌≡◌, refl,
  arith, ok, err, ap, ◌∙◌, sym, subst,
}
use infra_lightwight_s3_serv.Db.Rows.{
  Tables, Object, ObjectVersion, Draw, at_version, unique_violation,
}
use infra_lightwight_s3_serv.Db.Versioning.{enabled, null_version_id}
use infra_lightwight_s3_serv.Db.Versions.{
  record_version, insert_version, stored_version, retain_digest,
}
use infra_lightwight_s3_serv.Db.Current.{
  CurrentState, WriteOptions, located, scanned, supersede, superseded, preserve,
}
use infra_lightwight_s3_serv.Db.Objects.{put_object, get_object}
use infra_lightwight_s3_serv.Db.Contract.Writes.{previous_of, with_blob}
use infra_lightwight_s3_serv.Db.Contract.Preserved.{
  get_object_found, read_current_found, preserve-true, enabled_preserves, scanned_exists,
}

any-or_right :
    {A : Type 0} (p q : A → Bool) (xs : List A) → any q xs ≡ true → any (λ x. p x || q x) xs ≡ true
any-or_right p q [] h = h
any-or_right p q (x ∷ xs) h = ground (arith, any-or_right p q xs)

insert_version_taken :
    (row : ObjectVersion) (db : Tables)
    → any (at_version row.bucket_id row.key row.version_id) db.versions ≡ true
    → insert_version row db ≡ err unique_violation
unfolding insert_version
insert_version_taken row db h = rw (
    any-or_right (λ v. v.id == row.id) (at_version row.bucket_id row.key row.version_id) db.versions
      h)

retain_digest_versions :
    (now size : ℕ) (o : Option Bytes) (db : Tables)
    → (retain_digest now o size db).versions ≡ db.versions
unfolding retain_digest
retain_digest_versions now size none db = refl
retain_digest_versions now size (some d) db = refl

record_version_taken :
    (now row : ℕ) (minted : Bytes) (v : ObjectVersion) (db : Tables)
    → any (at_version v.bucket_id v.key (stored_version now row minted v).version_id) db.versions
      ≡ true
    → record_version now row minted v db ≡ err unique_violation
unfolding record_version stored_version
record_version_taken now row minted v db h =
    insert_version_taken (stored_version now row minted v)
      (retain_digest now v.blob_digest v.size db)
      (subst
        (λ vs.
          any (at_version v.bucket_id v.key (stored_version now row minted v).version_id) vs ≡ true)
        (sym (retain_digest_versions now v.size v.blob_digest db)) h)

-- The replaced null version would be stored under the id null.
superseded_taken :
    (draw : Draw) (bucket key actor : Bytes) (o : Object) (vs : List ObjectVersion)
    → o.version_id ≡ []
    → any (at_version bucket key null_version_id) vs ≡ true
    → let row = superseded (located bucket key (scanned o)) actor in
      any
        (at_version row.bucket_id row.key
          (stored_version draw.now draw.superseded_row draw.recorded_version row).version_id)
        vs
      ≡ true
unfolding superseded located scanned stored_version bytes_eq
superseded_taken draw bucket key actor o vs null taken = rw null taken

-- A key of a bucket with versioning whose current version and one of whose stored versions are both
-- the null version cannot be overwritten: every write fails on the unique constraint of the versions.
pub put_object_blocked :
    (draw : Draw) (obj : Object) (opts : WriteOptions) (db : Tables) (o : Object)
    → opts.versioning ≡ enabled
    → get_object obj.bucket_id obj.key db ≡ ok o
    → o.version_id ≡ []
    → any (at_version obj.bucket_id obj.key null_version_id) db.versions ≡ true
    → put_object draw obj opts db ≡ err unique_violation
unfolding put_object supersede
put_object_blocked draw obj opts db o on there null taken = rw (blocked, put_object)
  where
    cur : CurrentState
    cur = located obj.bucket_id obj.key (scanned o)

    reading : previous_of obj db ≡ cur
    reading = ap (located obj.bucket_id obj.key) (
        read_current_found obj.bucket_id obj.key db o
          (get_object_found obj.bucket_id obj.key db o there))

    blocked : preserve draw (previous_of obj db) opts (with_blob draw obj db) ≡ err unique_violation
    blocked =
        ap (λ c. preserve draw c opts (with_blob draw obj db)) reading
        ∙ preserve-true draw cur opts (with_blob draw obj db)
            (enabled_preserves opts cur on ∙ scanned_exists obj.bucket_id obj.key o)
        ∙ record_version_taken draw.now draw.superseded_row draw.recorded_version
            (superseded cur opts.actor) (with_blob draw obj db)
            (superseded_taken draw obj.bucket_id obj.key opts.actor o db.versions null taken)
