-- ===== src/Db/Contract/Writes.antt =====
-- objects.go: writing a key, and reading it afterwards.
use infra_lightwight_s3_serv.Prelude.{
  true, Bytes, [], bytes_eq_refl, find, upserted, find-upsert, Option, none, some, if◌then◌else◌,
  ◌≡◌, refl, arith, ok, ap, ◌∙◌, sym, >>=-ok, ok-injective,
}
use infra_lightwight_s3_serv.Db.Rows.{Tables, Object, Draw, at_key}
use infra_lightwight_s3_serv.Db.Versioning.{versioned}
use infra_lightwight_s3_serv.Db.Current.{
  CurrentState, WriteOptions, read_current, located, supersede, preserve, incoming_version,
}
use infra_lightwight_s3_serv.Db.Blobs.{retain_blob}
use infra_lightwight_s3_serv.Db.Objects.{
  inserted, overwritten, write_object, release_current, put_object, get_object,
}
use infra_lightwight_s3_serv.Db.Contract.{SameContents}

at_key_self : (o : Object) → at_key o.bucket_id o.key o ≡ true
at_key_self o = rw (bytes_eq_refl o.bucket_id, bytes_eq_refl o.key)

-- The row that a write leaves under its key.
pub write_object-find :
    (draw : Draw) (new : Object) (db : Tables)
    → find (at_key new.bucket_id new.key) (write_object draw new db).objects
      ≡ some (
          upserted
            (inserted draw new)
            (overwritten draw new)
            (find (at_key new.bucket_id new.key) db.objects))
unfolding write_object
write_object-find draw new db =
    find-upsert (at_key new.bucket_id new.key) (inserted draw new) (overwritten draw new) db.objects
      (at_key_self new) (λ x. refl)

pub release_current_objects :
    (cur : CurrentState) (db : Tables)
    → ((release_current cur db).objects ≡ db.objects)
      × ((release_current cur db).versions ≡ db.versions)
unfolding release_current
release_current_objects cur db = (ground arith, ground arith)

written_contents :
    (draw : Draw) (new : Object) (o : Option Object)
    → SameContents (upserted (inserted draw new) (overwritten draw new) o) new
      × ((upserted (inserted draw new) (overwritten draw new) o).version_id ≡ new.version_id)
      × ((upserted (inserted draw new) (overwritten draw new) o).updated_at ≡ draw.now)
unfolding inserted overwritten
written_contents draw new none = (
  record { blob_digest = refl; size = refl; etag = refl; content_type = refl; metadata = refl },
  refl,
  refl,
)
written_contents draw new (some o) = (
  record { blob_digest = refl; size = refl; etag = refl; content_type = refl; metadata = refl },
  refl,
  refl,
)

abbrev pub previous_of : Object → Tables → CurrentState
previous_of obj db = located obj.bucket_id obj.key (read_current obj.bucket_id obj.key db)

abbrev pub with_blob : Draw → Object → Tables → Tables
with_blob draw obj db = record db { blobs = retain_blob draw.now obj.blob_digest obj.size db.blobs }

pub supersede_parts :
    (draw : Draw) (cur : CurrentState) (opts : WriteOptions) (db : Tables) {r : Bytes × Tables}
    → supersede draw cur opts db ≡ ok r
    → (r.0 ≡ incoming_version draw opts) × (preserve draw cur opts db ≡ ok r.1)
unfolding supersede
supersede_parts draw cur opts db h =
    let (t, e, k) =
      >>=-ok (preserve draw cur opts db) (λ t. ok (incoming_version draw opts, t)) h in
    let same = ok-injective k in
    (sym (ap (λ (p : Bytes × Tables). p.0) same), e ∙ ap (λ (p : Bytes × Tables). ok p.1) same)

-- What a write that succeeds has done.
pub put_object_parts :
    (draw : Draw) (obj : Object) (opts : WriteOptions) (db t : Tables)
    → put_object draw obj opts db ≡ ok t
    → (kept : Tables) × (preserve draw (previous_of obj db) opts (with_blob draw obj db) ≡ ok kept)
      × (release_current
            (previous_of obj db)
            (write_object draw (record obj { version_id = incoming_version draw opts }) kept)
          ≡ t)
unfolding put_object
put_object_parts draw obj opts db t h =
    let ((version, kept), e, k) =
      >>=-ok (supersede draw (previous_of obj db) opts (with_blob draw obj db)) _ h in
    let (id, moved) = supersede_parts draw (previous_of obj db) opts (with_blob draw obj db) e in
    (
      kept,
      moved,
      ap
            (λ v.
              release_current (previous_of obj db)
                (write_object draw (record obj { version_id = v }) kept))
            (sym id)
          ∙ ok-injective k,
    )

-- The row under its key after a write that succeeds.
pub put_object-find :
    (draw : Draw) (obj : Object) (opts : WriteOptions) (db t : Tables)
    → put_object draw obj opts db ≡ ok t
    → (o : Object) × (find (at_key obj.bucket_id obj.key) t.objects ≡ some o)
      × SameContents o obj
      × (o.version_id ≡ incoming_version draw opts)
      × (o.updated_at ≡ draw.now)
put_object-find draw obj opts db t h =
    let (kept, e, k) = put_object_parts draw obj opts db t h in
    let new = record obj { version_id = incoming_version draw opts } in
    let rows = release_current_objects (previous_of obj db) (write_object draw new kept) in
    let (same, id, time) =
      written_contents draw new (find (at_key obj.bucket_id obj.key) kept.objects) in
    (
      upserted (inserted draw new) (overwritten draw new)
          (find (at_key obj.bucket_id obj.key) kept.objects),
      ap (find (at_key obj.bucket_id obj.key)) (sym (ap (λ (x : Tables). x.objects) k) ∙ rows.0)
          ∙ write_object-find draw new kept,
      record {
        blob_digest = same.blob_digest;
        size = same.size;
        etag = same.etag;
        content_type = same.content_type;
        metadata = same.metadata;
      },
      id,
      time,
    )

-- A row that is written is read back: it stands under the key with the columns that were put, under
-- the version id that was minted if versioning is enabled and the null version otherwise, and with
-- the transaction's time as its modification time.
pub get_object-put_object :
    (draw : Draw) (obj : Object) (opts : WriteOptions) (db t : Tables)
    → put_object draw obj opts db ≡ ok t
    → (o : Object) × (get_object obj.bucket_id obj.key t ≡ ok o)
      × SameContents o obj
      × (o.version_id ≡ (if versioned opts.versioning then draw.incoming_version else []))
      × (o.updated_at ≡ draw.now)
unfolding get_object incoming_version
get_object-put_object draw obj opts db t h =
    let (o, found, same, id, time) = put_object-find draw obj opts db t h in
    (o, rw (found, get_object), same, id, time)

write_object_versions :
    (draw : Draw) (new : Object) (db : Tables) → (write_object draw new db).versions ≡ db.versions
unfolding write_object
write_object_versions draw new db = refl

-- A write that succeeds leaves the history that preserving left.
pub put_object_versions :
    (draw : Draw) (obj : Object) (opts : WriteOptions) (db t : Tables)
    → put_object draw obj opts db ≡ ok t
    → (kept : Tables) × (preserve draw (previous_of obj db) opts (with_blob draw obj db) ≡ ok kept)
      × (t.versions ≡ kept.versions)
put_object_versions draw obj opts db t h =
    let (kept, e, k) = put_object_parts draw obj opts db t h in
    let new = record obj { version_id = incoming_version draw opts } in
    (
      kept,
      e,
      sym (ap (λ (x : Tables). x.versions) k)
          ∙ (release_current_objects (previous_of obj db) (write_object draw new kept)).1
          ∙ write_object_versions draw new kept,
    )
