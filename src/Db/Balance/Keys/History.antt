-- ===== src/Db/Balance/Keys/History.antt =====
-- versions.go and version_access.go: the primary key of the table of blobs under restoring, purging
-- and deleting versions.
use infra_lightwight_s3_serv.Prelude.{
  not, ◌||◌, Bytes, List, [], ◌∷◌, bytes_eq, find, remove, any, keep, Option, none, some,
  if◌then◌else◌, Result, ok, err, ◌>>=◌, Ensures, Ensures-if, Ensures->>=, Option-cases, Bool-cases,
  inl, inr,
}
use infra_lightwight_s3_serv.Db.Rows.{
  Tables, Object, ObjectVersion, Draw, Error, at_key, at_version, of_key, version_not_found,
  nil_dereference,
}
use infra_lightwight_s3_serv.Db.Versioning.{internal_version_id}
use infra_lightwight_s3_serv.Db.Blobs.{retain_blob}
use infra_lightwight_s3_serv.Db.Versions.{
  release_digest, release_previous, write_restored, restored_object, restored_version,
  restore_contents, restore_digest, restore_version, get_version, delete_version_row, purge_version,
  release_each, has_blob, purge_key_versions,
}
use infra_lightwight_s3_serv.Db.Current.{CurrentState, read_current}
use infra_lightwight_s3_serv.Db.Objects.{
  remove_current, Deletion, newest_version, insert_promoted, promote_version,
  promote_newest_version, delete_addressed, promote_if_vacant, delete_object_version, is_current,
  version_or_null,
}
use infra_lightwight_s3_serv.Db.Balance.Keys.{
  IsKeyed, Keyed-retain, Keyed-release, release_digest-IsKeyed, record_version-IsKeyed,
}

release_each-IsKeyed :
    (vs : List ObjectVersion) (db : Tables) → IsKeyed db → IsKeyed (release_each vs db)
unfolding release_each
release_each-IsKeyed [] db k = k
release_each-IsKeyed (v ∷ vs) db k =
    release_each-IsKeyed vs (release_digest v.blob_digest db)
      (release_digest-IsKeyed v.blob_digest db k)

pub purge_key_versions-IsKeyed :
    (bucket key : Bytes) (db : Tables) → IsKeyed db → IsKeyed (purge_key_versions bucket key db).1
unfolding purge_key_versions
purge_key_versions-IsKeyed bucket key db k =
    release_each-IsKeyed (keep has_blob (keep (of_key bucket key) db.versions))
      (record db { versions = keep (λ v. not (of_key bucket key v)) db.versions }) k

pub purge_version-IsKeyed :
    (bucket key version : Bytes) (db : Tables)
    → IsKeyed db
    → Ensures IsKeyed (purge_version bucket key version db)
unfolding purge_version delete_version_row
purge_version-IsKeyed bucket key version db k =
    elim (Option-cases (find (at_version bucket key version) db.versions)) [
      | inl e ↦ rw (e, delete_version_row, purge_version) tt
      | inr (v, e) ↦
          rw (e, delete_version_row, purge_version)
            (release_digest-IsKeyed v.blob_digest
              (record db { versions = remove (at_version bucket key version) db.versions }) k)
    ]

release_previous-IsKeyed :
    (o : Option Object) (db : Tables) → IsKeyed db → IsKeyed (release_previous o db)
unfolding release_previous
release_previous-IsKeyed none db k = k
release_previous-IsKeyed (some o) db k = Keyed-release o.blob_digest db.blobs k

restore_digest-IsKeyed :
    (draw : Draw) (bucket key actor : Bytes) (v : ObjectVersion) (o : Option Bytes) (db : Tables)
    → IsKeyed db
    → Ensures IsKeyed (restore_digest draw bucket key actor v o db)
unfolding restore_digest restore_contents write_restored
restore_digest-IsKeyed draw bucket key actor v none db k = tt
restore_digest-IsKeyed draw bucket key actor v (some digest) db k =
    let written =
      write_restored draw (restored_object bucket key digest v)
        (record db { blobs = retain_blob draw.now digest v.size db.blobs }) in
    record_version-IsKeyed draw.now draw.recorded_row draw.recorded_version
      (restored_version bucket key actor v)
      (release_previous (find (at_key bucket key) db.objects) written)
      (release_previous-IsKeyed (find (at_key bucket key) db.objects) written
        (Keyed-retain draw.now v.size digest db.blobs k))

always : (m : Result Error ObjectVersion) → Ensures (λ (v : ObjectVersion). Unit {0}) m
always (ok v) = tt
always (err e) = tt

pub restore_version-IsKeyed :
    (draw : Draw) (bucket key version actor : Bytes) (db : Tables)
    → IsKeyed db
    → Ensures IsKeyed (restore_version draw bucket key version actor db)
unfolding restore_version
restore_version-IsKeyed draw bucket key version actor db k =
    Ensures->>= {E = Error} {B = Tables} (λ (v : ObjectVersion). Unit {0}) IsKeyed
      (get_version bucket key version db)
      (λ v.
        if v.is_delete_marker
        then err version_not_found
        else restore_digest draw bucket key actor v v.blob_digest db)
      (always (get_version bucket key version db))
      (λ v h.
        Ensures-if {E = Error} IsKeyed v.is_delete_marker (err version_not_found)
          (restore_digest draw bucket key actor v v.blob_digest db) (λ _. tt)
          (λ _. restore_digest-IsKeyed draw bucket key actor v v.blob_digest db k))

promote_version-IsKeyed :
    (draw : Draw) (bucket key : Bytes) (v : ObjectVersion) (digest : Bytes) (db : Tables)
    → IsKeyed db
    → Ensures IsKeyed (promote_version draw bucket key v digest db)
unfolding promote_version insert_promoted
promote_version-IsKeyed draw bucket key v digest db k =
    elim (Bool-cases (any (at_key bucket key) db.objects)) [
      | inl e ↦ rw (e, insert_promoted, promote_version) tt
      | inr e ↦
          rw (e, insert_promoted, promote_version)
            (Keyed-release digest (retain_blob draw.now digest v.size db.blobs)
              (Keyed-retain draw.now v.size digest db.blobs k))
    ]

promoted_digest-IsKeyed :
    (draw : Draw) (bucket key : Bytes) (v : ObjectVersion) (o : Option Bytes) (db : Tables)
    → IsKeyed db
    → Ensures IsKeyed (elim o as (λ _. Result Error Tables) [
      | none ↦ err nil_dereference
      | some digest ↦ promote_version draw bucket key v digest db
    ])
promoted_digest-IsKeyed draw bucket key v none db k = tt
promoted_digest-IsKeyed draw bucket key v (some digest) db k =
    promote_version-IsKeyed draw bucket key v digest db k

promote_newest_version-IsKeyed :
    (draw : Draw) (bucket key : Bytes) (db : Tables)
    → IsKeyed db
    → Ensures IsKeyed (promote_newest_version draw bucket key db)
unfolding promote_newest_version
promote_newest_version-IsKeyed draw bucket key db k =
    elim (Option-cases (newest_version bucket key db.versions)) [
      | inl e ↦ rw (e, promote_newest_version) k
      | inr (v, e) ↦
          rw (e, promote_newest_version)
            (Ensures-if {E = Error} IsKeyed v.is_delete_marker (ok db)
              (elim v.blob_digest as (λ _. Result Error Tables) [
                | none ↦ err nil_dereference
                | some digest ↦ promote_version draw bucket key v digest db
              ])
              (λ _. k) (λ _. promoted_digest-IsKeyed draw bucket key v v.blob_digest db k))
    ]

delete_addressed-IsKeyed :
    (bucket key stored : Bytes) (cur : CurrentState) (db : Tables)
    → IsKeyed db
    → Ensures (λ (r : Deletion × Tables). IsKeyed r.1) (delete_addressed bucket key stored cur db)
unfolding delete_addressed remove_current delete_version_row
delete_addressed-IsKeyed bucket key stored cur db k = elim (Bool-cases (is_current cur stored)) [
  | inl c ↦ rw c (Keyed-release cur.object.blob_digest db.blobs k)
  | inr c ↦
      elim (Option-cases (find (at_version bucket key (version_or_null stored)) db.versions)) [
        | inl e ↦ rw (c, e, delete_version_row, delete_addressed) tt
        | inr (v, e) ↦
            rw (c, e, delete_version_row, delete_addressed)
              (release_digest-IsKeyed v.blob_digest
                (record db {
                  versions = remove (at_version bucket key (version_or_null stored)) db.versions;
                })
                k)
      ]
]

pub delete_object_version-IsKeyed :
    (draw : Draw) (bucket key version : Bytes) (db : Tables)
    → IsKeyed db
    → Ensures
        (λ (r : Deletion × Tables). IsKeyed r.1)
        (delete_object_version draw bucket key version db)
unfolding delete_object_version promote_if_vacant
delete_object_version-IsKeyed draw bucket key version db k =
    let stored = internal_version_id version in
    let cur = read_current bucket key db in
    Ensures->>= {E = Error} {B = Deletion × Tables} (λ (r : Deletion × Tables). IsKeyed r.1)
      (λ (r : Deletion × Tables). IsKeyed r.1) (delete_addressed bucket key stored cur db)
      (λ (result, t).
        promote_if_vacant draw bucket key stored cur t >>= (λ promoted. ok (result, promoted)))
      (delete_addressed-IsKeyed bucket key stored cur db k)
      (λ r h.
        Ensures->>= {E = Error} {B = Deletion × Tables} IsKeyed
          (λ (q : Deletion × Tables). IsKeyed q.1)
          (promote_if_vacant draw bucket key stored cur r.1) (λ promoted. ok (r.0, promoted))
          (Ensures-if {E = Error} IsKeyed (not cur.exists || bytes_eq cur.version_id stored)
            (promote_newest_version draw bucket key r.1) (ok r.1)
            (λ _. promote_newest_version-IsKeyed draw bucket key r.1 h) (λ _. h))
          (λ t l. l))
