-- ===== src/Db/Contract/Preserved.antt =====
-- objects.go and version_access.go: the version that a write replaces on a bucket with versioning.
use infra_lightwight_s3_serv.Prelude.{
  ℕ, ◌==◌, Bool, true, false, ◌||◌, Bytes, List, [], ◌∷◌, bytes_eq, bytes_eq_iff, bytes_eq_refl,
  find, find-cons, any, some, ◌≡◌, refl, arith, ok, Bool-cases, Option-cases, inl, inr, ap, ◌∙◌,
  sym, ok-injective,
}
use infra_lightwight_s3_serv.Db.Rows.{Tables, Object, ObjectVersion, Draw, at_key, at_version}
use infra_lightwight_s3_serv.Db.Versioning.{
  enabled, null_version_id, external_version_id, internal_version_id,
}
use infra_lightwight_s3_serv.Db.Versions.{
  record_version, insert_version, marker_has_no_blob, stored_version, retain_digest, get_version,
}
use infra_lightwight_s3_serv.Db.Current.{
  CurrentState, WriteOptions, read_current, located, scanned, superseded, preserves, preserve,
  incoming_version,
}
use infra_lightwight_s3_serv.Db.Objects.{
  put_object, get_object, get_object_version, version_or_null, is_current, object_of_version,
  version_from,
}
use infra_lightwight_s3_serv.Db.Contract.{SameContents}
use infra_lightwight_s3_serv.Db.Contract.Writes.{
  put_object-find, put_object_versions, previous_of, with_blob,
}

insert_version_versions :
    (row : ObjectVersion) (db t : Tables)
    → insert_version row db ≡ ok t
    → t.versions ≡ row ∷ db.versions
unfolding insert_version
insert_version_versions row db t h =
    elim (Bool-cases (
      any (λ v. v.id == row.id || at_version row.bucket_id row.key row.version_id v) db.versions)) [
        | inl e ↦ absurd (cc (rw (e, insert_version) at h))
        | inr e ↦ elim (Bool-cases (marker_has_no_blob row.is_delete_marker row.blob_digest)) [
          | inl m ↦
              ap (λ (x : Tables). x.versions) (sym (ok-injective (rw (e, m, insert_version) at h)))
          | inr m ↦ absurd (cc (rw (e, m, insert_version) at h))
        ]
      ]

-- A version that is recorded heads the history.
pub record_version_versions :
    (now row : ℕ) (minted : Bytes) (v : ObjectVersion) (db t : Tables)
    → record_version now row minted v db ≡ ok t
    → t.versions
      ≡ stored_version now row minted v ∷ (retain_digest now v.blob_digest v.size db).versions
unfolding record_version
record_version_versions now row minted v db t h =
    insert_version_versions (stored_version now row minted v)
      (retain_digest now v.blob_digest v.size db) t h

pub read_current_found :
    (bucket key : Bytes) (db : Tables) (o : Object)
    → find (at_key bucket key) db.objects ≡ some o
    → read_current bucket key db ≡ scanned o
unfolding read_current
read_current_found bucket key db o h = rw (h, read_current)

internal-external :
    (stored : Bytes)
    → bytes_eq stored null_version_id ≡ false
    → internal_version_id (external_version_id stored) ≡ stored
unfolding internal_version_id external_version_id bytes_eq
internal-external stored h = ground (arith, bytes_eq_iff stored [])

-- The row of the replaced version is found by the id that the version had.
superseded_at :
    (draw : Draw) (bucket key actor : Bytes) (o : Object)
    → at_version bucket key (version_or_null o.version_id) (
        stored_version draw.now draw.superseded_row draw.recorded_version
          (superseded (located bucket key (scanned o)) actor))
      ≡ true
unfolding superseded located scanned version_or_null stored_version bytes_eq
superseded_at draw bucket key actor o = ground (
  arith,
  bytes_eq_refl bucket,
  bytes_eq_refl key,
  bytes_eq_refl o.version_id,
  bytes_eq_iff o.version_id [],
)

-- What GetObjectVersion makes of that row.
superseded_object :
    (draw : Draw) (bucket key actor stored : Bytes) (o : Object)
    → (o.updated_at == 0) ≡ false
    → (p : Object) × (object_of_version bucket key stored (
          stored_version draw.now draw.superseded_row draw.recorded_version
            (superseded (located bucket key (scanned o)) actor))
        ≡ ok p)
      × SameContents p o
      × (p.version_id ≡ stored)
      × (p.updated_at ≡ o.updated_at)
unfolding superseded located scanned stored_version object_of_version
superseded_object draw bucket key actor stored o h = (
  record {
    id = 0;
    bucket_id = bucket;
    key = key;
    blob_digest = o.blob_digest;
    size = o.size;
    etag = o.etag;
    content_type = o.content_type;
    metadata = o.metadata;
    version_id = stored;
    created_at = o.updated_at;
    updated_at = o.updated_at;
  },
  rw h,
  record { blob_digest = refl; size = refl; etag = refl; content_type = refl; metadata = refl },
  refl,
  refl,
)

get_version_found :
    (bucket key version : Bytes) (v : ObjectVersion) (t : Tables)
    → find (at_version bucket key version) t.versions ≡ some v
    → get_version bucket key version t ≡ ok v
unfolding get_version
get_version_found bucket key version v t h = rw (h, get_version)

other_version :
    (bucket key stored : Bytes) (cur : CurrentState) (v : ObjectVersion) (t : Tables)
    → is_current cur stored ≡ false
    → get_version bucket key (version_or_null stored) t ≡ ok v
    → version_from bucket key stored cur t ≡ object_of_version bucket key stored v
unfolding version_from
other_version bucket key stored cur v t h k = rw (h, version_from) (rw (k, version_from))

scanned_version :
    (o : Object) (stored : Bytes) → is_current (scanned o) stored ≡ bytes_eq o.version_id stored
unfolding is_current scanned
scanned_version o stored = refl

addressed :
    (bucket key version : Bytes) (t : Tables)
    → get_object_version bucket key version t
      ≡ version_from bucket key (internal_version_id version) (read_current bucket key t) t
unfolding get_object_version
addressed bucket key version t = refl

-- An address other than the current version's is looked up in the history.
pub history_lookup :
    (bucket key stored version : Bytes) (o : Object) (v : ObjectVersion) (t : Tables)
    → internal_version_id version ≡ stored
    → find (at_key bucket key) t.objects ≡ some o
    → bytes_eq o.version_id stored ≡ false
    → find (at_version bucket key (version_or_null stored)) t.versions ≡ some v
    → get_object_version bucket key version t ≡ object_of_version bucket key stored v
history_lookup bucket key stored version o v t id found other row =
    addressed bucket key version t
    ∙ ap (λ s. version_from bucket key s (read_current bucket key t) t) id
    ∙ ap (λ c. version_from bucket key stored c t) (read_current_found bucket key t o found)
    ∙ other_version bucket key stored (scanned o) v t (scanned_version o stored ∙ other)
        (get_version_found bucket key (version_or_null stored) v t row)

pub get_object_found :
    (bucket key : Bytes) (db : Tables) (o : Object)
    → get_object bucket key db ≡ ok o
    → find (at_key bucket key) db.objects ≡ some o
unfolding get_object
get_object_found bucket key db o h = elim (Option-cases (find (at_key bucket key) db.objects)) [
  | inl e ↦ absurd (cc (rw (e, get_object) at h))
  | inr (x, e) ↦ e ∙ ap some (ok-injective (rw (e, get_object) at h))
]

pub enabled_preserves :
    (opts : WriteOptions) (cur : CurrentState)
    → opts.versioning ≡ enabled
    → preserves opts.versioning cur ≡ cur.exists
unfolding preserves
enabled_preserves opts cur on = ap (λ v. preserves v cur) on

pub preserve-true :
    (draw : Draw) (cur : CurrentState) (opts : WriteOptions) (db : Tables)
    → preserves opts.versioning cur ≡ true
    → preserve draw cur opts db
      ≡ record_version draw.now draw.superseded_row draw.recorded_version
          (superseded cur opts.actor)
          db
unfolding preserve
preserve-true draw cur opts db h = rw (h, preserve)

pub scanned_exists :
    (bucket key : Bytes) (o : Object) → (located bucket key (scanned o)).exists ≡ true
unfolding located scanned
scanned_exists bucket key o = refl

find_head :
    (p : ObjectVersion → Bool) (v : ObjectVersion) (vs ws : List ObjectVersion)
    → ws ≡ v ∷ vs
    → p v ≡ true
    → find p ws ≡ some v
find_head p v vs ws e h = ap (find p) e ∙ rw (find-cons p v vs, h)

-- The row that preserving a current version puts at the head of the history.
preserved_row :
    (draw : Draw) (obj : Object) (opts : WriteOptions) (db kept : Tables) (o : Object)
    → opts.versioning ≡ enabled
    → find (at_key obj.bucket_id obj.key) db.objects ≡ some o
    → preserve draw (previous_of obj db) opts (with_blob draw obj db) ≡ ok kept
    → find (at_version obj.bucket_id obj.key (version_or_null o.version_id)) kept.versions
      ≡ some (
          stored_version draw.now draw.superseded_row draw.recorded_version
            (superseded (located obj.bucket_id obj.key (scanned o)) opts.actor))
preserved_row draw obj opts db kept o on there moved =
    let cur = located obj.bucket_id obj.key (scanned o) in
    let reading =
      ap (located obj.bucket_id obj.key) (read_current_found obj.bucket_id obj.key db o there) in
    let exists = enabled_preserves opts cur on ∙ scanned_exists obj.bucket_id obj.key o in
    let recorded =
      sym (preserve-true draw cur opts (with_blob draw obj db) exists)
      ∙ ap (λ c. preserve draw c opts (with_blob draw obj db)) (sym reading)
      ∙ moved in
    find_head (at_version obj.bucket_id obj.key (version_or_null o.version_id))
      (stored_version draw.now draw.superseded_row draw.recorded_version
        (superseded cur opts.actor))
      _ kept.versions
      (record_version_versions draw.now draw.superseded_row draw.recorded_version
        (superseded cur opts.actor) (with_blob draw obj db) kept recorded)
      (superseded_at draw obj.bucket_id obj.key opts.actor o)

enabled_incoming :
    (draw : Draw) (opts : WriteOptions)
    → opts.versioning ≡ enabled
    → incoming_version draw opts ≡ draw.incoming_version
unfolding incoming_version
enabled_incoming draw opts on = rw on

-- Overwriting a key of a bucket with versioning keeps the version that it replaces: under the id that
-- it had before (written null where it had none) GetObjectVersion still returns its contents, its id
-- and its modification time. It is assumed that the write succeeds, that the minted id is not the id
-- of the replaced version, that the latter is not spelled null, and that it has a time.
pub get_object_version-put_object :
    (draw : Draw) (obj : Object) (opts : WriteOptions) (db t : Tables) (o : Object)
    → opts.versioning ≡ enabled
    → get_object obj.bucket_id obj.key db ≡ ok o
    → bytes_eq draw.incoming_version o.version_id ≡ false
    → bytes_eq o.version_id null_version_id ≡ false
    → (o.updated_at == 0) ≡ false
    → put_object draw obj opts db ≡ ok t
    → (p : Object) × (get_object_version obj.bucket_id obj.key (external_version_id o.version_id) t
        ≡ ok p)
      × SameContents p o
      × (p.version_id ≡ o.version_id)
      × (p.updated_at ≡ o.updated_at)
get_object_version-put_object draw obj opts db t o on there new proper timed h =
    let (now, found, _, id, _) = put_object-find draw obj opts db t h in
    let (kept, moved, same) = put_object_versions draw obj opts db t h in
    let (p, seen, contents, version, time) =
      superseded_object draw obj.bucket_id obj.key opts.actor o.version_id o timed in
    (
      p,
      history_lookup obj.bucket_id obj.key o.version_id (external_version_id o.version_id) now
            (stored_version draw.now draw.superseded_row draw.recorded_version
              (superseded (located obj.bucket_id obj.key (scanned o)) opts.actor))
            t (internal-external o.version_id proper) found
            (ap (λ v. bytes_eq v o.version_id) (id ∙ enabled_incoming draw opts on) ∙ new)
            (ap (find (at_version obj.bucket_id obj.key (version_or_null o.version_id))) same
              ∙ preserved_row draw obj opts db kept o on
                  (get_object_found obj.bucket_id obj.key db o there) moved)
          ∙ seen,
      contents,
      version,
      time,
    )
