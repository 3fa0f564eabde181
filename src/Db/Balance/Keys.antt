-- ===== src/Db/Balance/Keys.antt =====
-- objects.go and current.go: the primary key of the table of blobs under writes and deletes.
pub mod History
use infra_lightwight_s3_serv.Prelude.{
  ℕ, ◌+◌, ◌-◌, ◌==◌, ltb, Bool, true, false, not, ◌&&◌, ◌||◌, Bytes, List, [], ◌∷◌, bytes_eq,
  bytes_eq_iff, find, remove, update, upsert, any, keep, Option, none, some, if◌then◌else◌, ◌≡◌,
  refl, arith, Result, ok, err, ◌>>=◌, Ensures, Ensures-if, Ensures->>=, Option-cases, Bool-cases,
  inl, inr,
}
use infra_lightwight_s3_serv.Db.Rows.{
  Tables, Object, ObjectVersion, Blob, Draw, Error, same_digest, at_key, at_version, of_key,
  version_not_found, unique_violation, check_violation, nil_dereference,
}
use infra_lightwight_s3_serv.Db.Versioning.{
  versioned, configured, null_version_id, internal_version_id, external_version_id,
}
use infra_lightwight_s3_serv.Db.Blobs.{retain_blob, release_blob}
use infra_lightwight_s3_serv.Db.Versions.{
  marker_has_no_blob, insert_version, stored_version, retain_digest, record_version, release_digest,
  release_previous, write_restored, restored_object, restored_version, restore_contents,
  restore_digest, restore_version, get_version, delete_version_row, purge_version, release_each,
  has_blob, purge_key_versions,
}
use infra_lightwight_s3_serv.Db.Current.{
  WriteOptions, CurrentState, read_current, located, preserves, superseded, preserve,
  incoming_version, supersede, replace_null_version,
}
use infra_lightwight_s3_serv.Db.Objects.{
  write_object, release_current, put_object, marker_of, make_room, place_marker, write_marker,
  begin_delete, remove_current, finish_delete, delete_object, Deletion, newest_version,
  insert_promoted, promote_version, promote_newest_version, delete_addressed, promote_if_vacant,
  delete_object_version, is_current, version_or_null,
}
use infra_lightwight_s3_serv.Db.Balance.Sweep.{Keyed}

abbrev pub IsKeyed : Tables → Type 0
IsKeyed t = Keyed t.blobs

absent-retain :
    (now size : ℕ) (x d : Bytes) (bs : List Blob)
    → any (same_digest x) bs ≡ false
    → bytes_eq d x ≡ false
    → any (same_digest x) (retain_blob now d size bs) ≡ false
unfolding retain_blob upsert
absent-retain now size x d [] h k = ground arith
absent-retain now size x d (b ∷ bs) h k = elim (Bool-cases (bytes_eq b.digest d)) [
  | inl e ↦ rw e h
  | inr e ↦ rw e (ground (arith, absent-retain now size x d bs))
]

pub Keyed-retain :
    (now size : ℕ) (d : Bytes) (bs : List Blob) → Keyed bs → Keyed (retain_blob now d size bs)
unfolding retain_blob upsert
Keyed-retain now size d [] k = (refl, tt)
Keyed-retain now size d (b ∷ bs) k = elim (Bool-cases (bytes_eq b.digest d)) [
  | inl e ↦ rw e k
  | inr e ↦ rw e (
    absent-retain now size b.digest d bs k.0
        (ground (arith, bytes_eq_iff b.digest d, bytes_eq_iff d b.digest)),
    Keyed-retain now size d bs k.1,
  )
]

absent-release :
    (x d : Bytes) (bs : List Blob)
    → any (same_digest x) bs ≡ false
    → any (same_digest x) (release_blob d bs) ≡ false
unfolding release_blob update
absent-release x d [] h = h
absent-release x d (b ∷ bs) h = elim (Bool-cases (bytes_eq b.digest d)) [
  | inl e ↦ rw e h
  | inr e ↦ rw e (ground (arith, absent-release x d bs))
]

pub Keyed-release : (d : Bytes) (bs : List Blob) → Keyed bs → Keyed (release_blob d bs)
unfolding release_blob update
Keyed-release d [] k = tt
Keyed-release d (b ∷ bs) k = elim (Bool-cases (bytes_eq b.digest d)) [
  | inl e ↦ rw e k
  | inr e ↦ rw e (absent-release b.digest d bs k.0, Keyed-release d bs k.1)
]

pub release_digest-IsKeyed :
    (o : Option Bytes) (db : Tables) → IsKeyed db → IsKeyed (release_digest o db)
unfolding release_digest
release_digest-IsKeyed none db k = k
release_digest-IsKeyed (some d) db k = Keyed-release d db.blobs k

retain_digest-IsKeyed :
    (now size : ℕ) (o : Option Bytes) (db : Tables)
    → IsKeyed db
    → IsKeyed (retain_digest now o size db)
unfolding retain_digest
retain_digest-IsKeyed now size none db k = k
retain_digest-IsKeyed now size (some d) db k = Keyed-retain now size d db.blobs k

insert_version-IsKeyed :
    (row : ObjectVersion) (db : Tables) → IsKeyed db → Ensures IsKeyed (insert_version row db)
unfolding insert_version
insert_version-IsKeyed row db k =
    Ensures-if {E = Error} IsKeyed
      (any (λ v. v.id == row.id || at_version row.bucket_id row.key row.version_id v) db.versions)
      (err unique_violation)
      (if marker_has_no_blob row.is_delete_marker row.blob_digest
        then ok (record db { versions = row ∷ db.versions })
        else err check_violation)
      (λ _. tt)
      (λ _.
        Ensures-if {E = Error} IsKeyed (marker_has_no_blob row.is_delete_marker row.blob_digest)
          (ok (record db { versions = row ∷ db.versions })) (err check_violation) (λ _. k)
          (λ _. tt))

pub record_version-IsKeyed :
    (now row : ℕ) (minted : Bytes) (v : ObjectVersion) (db : Tables)
    → IsKeyed db
    → Ensures IsKeyed (record_version now row minted v db)
unfolding record_version
record_version-IsKeyed now row minted v db k =
    insert_version-IsKeyed (stored_version now row minted v)
      (retain_digest now v.blob_digest v.size db)
      (retain_digest-IsKeyed now v.size v.blob_digest db k)

supersede-IsKeyed :
    (draw : Draw) (cur : CurrentState) (opts : WriteOptions) (db : Tables)
    → IsKeyed db
    → Ensures (λ (r : Bytes × Tables). IsKeyed r.1) (supersede draw cur opts db)
unfolding supersede preserve
supersede-IsKeyed draw cur opts db k =
    Ensures->>= {E = Error} {B = Bytes × Tables} IsKeyed (λ r. IsKeyed r.1)
      (preserve draw cur opts db) (λ t. ok (incoming_version draw opts, t))
      (Ensures-if {E = Error} IsKeyed (preserves opts.versioning cur)
        (record_version draw.now draw.superseded_row draw.recorded_version
          (superseded cur opts.actor) db)
        (ok db)
        (λ _.
          record_version-IsKeyed draw.now draw.superseded_row draw.recorded_version
            (superseded cur opts.actor) db k)
        (λ _. k))
      (λ t h. h)

release_current-IsKeyed :
    (cur : CurrentState) (db : Tables) → IsKeyed db → IsKeyed (release_current cur db)
unfolding release_current
release_current-IsKeyed cur db k = elim (Bool-cases cur.exists) [
  | inl e ↦ rw e (Keyed-release cur.object.blob_digest db.blobs k)
  | inr e ↦ rw e k
]

pub put_object-IsKeyed :
    (draw : Draw) (obj : Object) (opts : WriteOptions) (db : Tables)
    → IsKeyed db
    → Ensures IsKeyed (put_object draw obj opts db)
unfolding put_object write_object
put_object-IsKeyed draw obj opts db k =
    let previous = located obj.bucket_id obj.key (read_current obj.bucket_id obj.key db) in
    let retained = record db { blobs = retain_blob draw.now obj.blob_digest obj.size db.blobs } in
    Ensures->>= {E = Error} {B = Tables} (λ (r : Bytes × Tables). IsKeyed r.1) IsKeyed
      (supersede draw previous opts retained)
      (λ (version, t).
        ok (release_current previous (write_object draw (record obj { version_id = version }) t)))
      (supersede-IsKeyed draw previous opts retained
        (Keyed-retain draw.now obj.size obj.blob_digest db.blobs k))
      (λ r h.
        release_current-IsKeyed previous (write_object draw (record obj { version_id = r.0 }) r.1)
          h)

replace_null_version-IsKeyed :
    (bucket key : Bytes) (db : Tables) → IsKeyed db → IsKeyed (replace_null_version bucket key db)
unfolding replace_null_version delete_version_row
replace_null_version-IsKeyed bucket key db k =
    elim (Option-cases (find (at_version bucket key null_version_id) db.versions)) [
      | inl e ↦ rw (e, delete_version_row, replace_null_version) k
      | inr (v, e) ↦
          rw (e, delete_version_row, replace_null_version)
            (release_digest-IsKeyed v.blob_digest
              (record db { versions = remove (at_version bucket key null_version_id) db.versions })
              k)
    ]

make_room-IsKeyed :
    (bucket key : Bytes) (opts : WriteOptions) (db : Tables)
    → IsKeyed db
    → IsKeyed (make_room bucket key opts db)
unfolding make_room
make_room-IsKeyed bucket key opts db k = elim (Bool-cases (versioned opts.versioning)) [
  | inl e ↦ rw e k
  | inr e ↦ rw e (replace_null_version-IsKeyed bucket key db k)
]

begin_delete-IsKeyed :
    (draw : Draw) (bucket key : Bytes) (cur : CurrentState) (opts : WriteOptions) (db : Tables)
    → IsKeyed db
    → Ensures (λ (r : Bytes × Tables). IsKeyed r.1) (begin_delete draw bucket key cur opts db)
unfolding begin_delete write_marker place_marker
begin_delete-IsKeyed draw bucket key cur opts db k =
    let marker = marker_of draw bucket key opts in
    Ensures-if {E = Error} (λ (r : Bytes × Tables). IsKeyed r.1) (configured opts.versioning)
      (write_marker draw bucket key cur opts db) (ok ([], db))
      (λ _.
        Ensures->>= {E = Error} {B = Bytes × Tables} (λ (r : Bytes × Tables). IsKeyed r.1)
          (λ (r : Bytes × Tables). IsKeyed r.1) (supersede draw cur opts db)
          (λ (_, kept). place_marker draw bucket key opts kept)
          (supersede-IsKeyed draw cur opts db k)
          (λ s h.
            Ensures->>= {E = Error} {B = Bytes × Tables} IsKeyed
              (λ (r : Bytes × Tables). IsKeyed r.1)
              (record_version draw.now draw.recorded_row draw.recorded_version marker
                (make_room bucket key opts s.1))
              (λ t. ok (
                external_version_id
                    (stored_version draw.now draw.recorded_row draw.recorded_version
                      marker).version_id,
                t,
              ))
              (record_version-IsKeyed draw.now draw.recorded_row draw.recorded_version marker
                (make_room bucket key opts s.1) (make_room-IsKeyed bucket key opts s.1 h))
              (λ t l. l)))
      (λ _. k)

finish_delete-IsKeyed :
    (bucket key marker : Bytes) (cur : CurrentState) (opts : WriteOptions) (db : Tables)
    → IsKeyed db
    → IsKeyed (finish_delete bucket key cur opts marker db).1
unfolding finish_delete remove_current
finish_delete-IsKeyed bucket key marker cur opts db k = elim (Bool-cases cur.exists) [
  | inl e ↦ rw e (Keyed-release cur.object.blob_digest db.blobs k)
  | inr e ↦ rw e k
]

pub delete_object-IsKeyed :
    (draw : Draw) (bucket key : Bytes) (opts : WriteOptions) (db : Tables)
    → IsKeyed db
    → Ensures (λ (r : Deletion × Tables). IsKeyed r.1) (delete_object draw bucket key opts db)
unfolding delete_object
delete_object-IsKeyed draw bucket key opts db k =
    let removed = located bucket key (read_current bucket key db) in
    Ensures->>= {E = Error} {B = Deletion × Tables} (λ (r : Bytes × Tables). IsKeyed r.1)
      (λ (r : Deletion × Tables). IsKeyed r.1) (begin_delete draw bucket key removed opts db)
      (λ (marker, t). ok (finish_delete bucket key removed opts marker t))
      (begin_delete-IsKeyed draw bucket key removed opts db k)
      (λ r h. finish_delete-IsKeyed bucket key r.0 removed opts r.1 h)
