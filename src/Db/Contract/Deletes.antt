-- ===== src/Db/Contract/Deletes.antt =====
-- objects.go: deleting a key, and reading it afterwards.
use infra_lightwight_s3_serv.Prelude.{
  false, Bool, Bytes, List, [], ◌∷◌, find, remove, any, Option, none, some, ◌≡◌, refl, arith, ok,
  err, ap, ◌∙◌, sym, >>=-ok, ok-injective, Bool-cases, Option-cases, inl, inr,
}
use infra_lightwight_s3_serv.Db.Rows.{Tables, Object, Draw, at_key, at_version, object_not_found}
use infra_lightwight_s3_serv.Db.Versioning.{configured, null_version_id, versioned}
use infra_lightwight_s3_serv.Db.Versions.{delete_version_row, release_digest, record_version}
use infra_lightwight_s3_serv.Db.Current.{
  CurrentState, WriteOptions, read_current, scanned, located, supersede, preserve, preserves,
  superseded, replace_null_version,
}
use infra_lightwight_s3_serv.Db.Objects.{
  get_object, delete_object, begin_delete, write_marker, place_marker, make_room, marker_of,
  finish_delete, remove_current, Deletion,
}
use infra_lightwight_s3_serv.Db.Contract.Writes.{supersede_parts}
use infra_lightwight_s3_serv.Db.Contract.Restored.{record_version_objects}

preserve_objects :
    (draw : Draw) (cur : CurrentState) (opts : WriteOptions) (db t : Tables)
    → preserve draw cur opts db ≡ ok t
    → t.objects ≡ db.objects
unfolding preserve
preserve_objects draw cur opts db t h = elim (Bool-cases (preserves opts.versioning cur)) [
  | inl e ↦
      record_version_objects draw.now draw.superseded_row draw.recorded_version
        (superseded cur opts.actor) db t (rw (e, preserve) at h)
  | inr e ↦ ap (λ (x : Tables). x.objects) (sym (ok-injective (rw (e, preserve) at h)))
]

release_digest_objects :
    (o : Option Bytes) (db : Tables) → (release_digest o db).objects ≡ db.objects
unfolding release_digest
release_digest_objects none db = refl
release_digest_objects (some d) db = refl

replace_null_version_objects :
    (bucket key : Bytes) (db : Tables) → (replace_null_version bucket key db).objects ≡ db.objects
unfolding replace_null_version delete_version_row
replace_null_version_objects bucket key db =
    elim (Option-cases (find (at_version bucket key null_version_id) db.versions)) [
      | inl e ↦ rw (e, delete_version_row, replace_null_version) refl
      | inr (v, e) ↦
          rw (e, delete_version_row, replace_null_version)
            (release_digest_objects v.blob_digest
              (record db { versions = remove (at_version bucket key null_version_id) db.versions }))
    ]

make_room_objects :
    (bucket key : Bytes) (opts : WriteOptions) (db : Tables)
    → (make_room bucket key opts db).objects ≡ db.objects
unfolding make_room
make_room_objects bucket key opts db = elim (Bool-cases (versioned opts.versioning)) [
  | inl e ↦ rw e refl
  | inr e ↦ rw e (replace_null_version_objects bucket key db)
]

place_marker_objects :
    (draw : Draw) (bucket key : Bytes) (opts : WriteOptions) (db : Tables) (r : Bytes × Tables)
    → place_marker draw bucket key opts db ≡ ok r
    → r.1.objects ≡ db.objects
unfolding place_marker
place_marker_objects draw bucket key opts db r h =
    let (t, e, k) =
      >>=-ok
        (record_version draw.now draw.recorded_row draw.recorded_version
          (marker_of draw bucket key opts) (make_room bucket key opts db))
        _ h in
    ap (λ (x : Bytes × Tables). x.1.objects) (sym (ok-injective k))
    ∙ record_version_objects draw.now draw.recorded_row draw.recorded_version
        (marker_of draw bucket key opts) (make_room bucket key opts db) t e
    ∙ make_room_objects bucket key opts db

write_marker_objects :
    (draw : Draw) (bucket key : Bytes) (cur : CurrentState) (opts : WriteOptions) (db : Tables)
    (r : Bytes × Tables)
    → write_marker draw bucket key cur opts db ≡ ok r
    → r.1.objects ≡ db.objects
unfolding write_marker
write_marker_objects draw bucket key cur opts db r h =
    let (s, e, k) = >>=-ok (supersede draw cur opts db) _ h in
    place_marker_objects draw bucket key opts s.1 r k
    ∙ preserve_objects draw cur opts db s.1 ((supersede_parts draw cur opts db e).1)

begin_delete_objects :
    (draw : Draw) (bucket key : Bytes) (cur : CurrentState) (opts : WriteOptions) (db : Tables)
    (r : Bytes × Tables)
    → begin_delete draw bucket key cur opts db ≡ ok r
    → r.1.objects ≡ db.objects
unfolding begin_delete
begin_delete_objects draw bucket key cur opts db r h =
    elim (Bool-cases (configured opts.versioning)) [
      | inl e ↦ write_marker_objects draw bucket key cur opts db r (rw (e, begin_delete) at h)
      | inr e ↦
          ap (λ (x : Bytes × Tables). x.1.objects) (sym (ok-injective (rw (e, begin_delete) at h)))
    ]

find-none : (p : Object → Bool) (xs : List Object) → any p xs ≡ false → find p xs ≡ none
unfolding find
find-none p [] h = refl
find-none p (x ∷ xs) h = ground (arith, find-none p xs)

finish_delete_gone :
    (bucket key marker : Bytes) (opts : WriteOptions) (db db' : Tables)
    → db'.objects ≡ db.objects
    → any (at_key bucket key) (remove (at_key bucket key) db.objects) ≡ false
    → find
        (at_key bucket key)
        (finish_delete bucket key
          (located bucket key (read_current bucket key db))
          opts
          marker
          db').1.objects
      ≡ none
unfolding finish_delete located read_current scanned remove_current
finish_delete_gone bucket key marker opts db db' same once =
    elim (Option-cases (find (at_key bucket key) db.objects)) [
      | inl e ↦ rw (e, read_current) (ap (find (at_key bucket key)) same ∙ e)
      | inr (o, e) ↦
          rw (e, read_current)
            (ap (λ os. find (at_key bucket key) (remove (at_key bucket key) os)) same
              ∙ find-none (at_key bucket key) (remove (at_key bucket key) db.objects) once)
    ]

finish_delete_marker :
    (bucket key marker : Bytes) (opts : WriteOptions) (cur : CurrentState) (db : Tables)
    → (finish_delete bucket key cur opts marker db).0.delete_marker ≡ configured opts.versioning
unfolding finish_delete
finish_delete_marker bucket key marker opts cur db = elim (Bool-cases cur.exists) [
  | inl e ↦ rw e refl
  | inr e ↦ rw e refl
]

-- A delete that succeeds makes the key unreadable, in every state of versioning, and reports a delete
-- marker just if versioning was ever turned on. It is assumed that the key has at most one row.
pub get_object-delete_object :
    (draw : Draw) (bucket key : Bytes) (opts : WriteOptions) (db t : Tables) (d : Deletion)
    → any (at_key bucket key) (remove (at_key bucket key) db.objects) ≡ false
    → delete_object draw bucket key opts db ≡ ok (d, t)
    → (get_object bucket key t ≡ err object_not_found)
      × (d.delete_marker ≡ configured opts.versioning)
unfolding delete_object get_object
get_object-delete_object draw bucket key opts db t d once h =
    let cur = located bucket key (read_current bucket key db) in
    let (r, e, k) = >>=-ok (begin_delete draw bucket key cur opts db) _ h in
    let gone =
      finish_delete_gone bucket key r.0 opts db r.1
        (begin_delete_objects draw bucket key cur opts db r e) once in
    let done = ok-injective k in
    let missing : find (at_key bucket key) t.objects ≡ none =
      ap (λ (x : Deletion × Tables). find (at_key bucket key) x.1.objects) (sym done) ∙ gone in
    (
      rw (missing, get_object) refl,
      ap (λ (x : Deletion × Tables). x.0.delete_marker) (sym done)
          ∙ finish_delete_marker bucket key r.0 opts cur r.1,
    )
