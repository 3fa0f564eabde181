-- ===== src/Db/Balance/Transactions.antt =====
-- objects.go: the books under writes and deletes of a key.
use infra_lightwight_s3_serv.Prelude.{
  ℕ, ◌+◌, true, Bytes, [], find, weight?, Option, none, some, if◌then◌else◌, ◌≡◌, refl, arith,
  Result, ok, Ensures, weight-remove, weight-upsert, Bool-cases, inl, inr, ap, Result-cases,
  Ensures-if, Ensures-map, ◌∙◌, sym, subst, Ensures_of_eq, upserted,
}
use infra_lightwight_s3_serv.Db.Rows.{Tables, Object, Draw, Error, at_key}
use infra_lightwight_s3_serv.Db.Versioning.{versioned, configured}
use infra_lightwight_s3_serv.Db.Blobs.{retain_blob}
use infra_lightwight_s3_serv.Db.Versions.{record_version}
use infra_lightwight_s3_serv.Db.Current.{
  CurrentState, WriteOptions, read_current, located, supersede,
}
use infra_lightwight_s3_serv.Db.Objects.{
  inserted, overwritten, write_object, release_current, put_object, write_marker, begin_delete,
  finish_delete, delete_object, remove_current, marker_of, make_room, place_marker,
}
use infra_lightwight_s3_serv.Db.Balance.{
  tally, object_ref, Owing, IsBalanced, Distinct, IsConsistent,
}
use infra_lightwight_s3_serv.Db.Balance.Primitives.{
  Recorded, current_ref, current_ref-find, supersede-Recorded, record_version-Recorded,
  replace_null_version-Recorded, refcount-release, refcount-retain,
}

abbrev pub nothing : Bytes → ℕ
nothing e = 0

pub upserted_ref :
    (e : Bytes) (row : Object) (change : Object → Object) (o : Option Object)
    → ((x : Object) → (change x).blob_digest ≡ row.blob_digest)
    → object_ref e (upserted row change o) ≡ object_ref e row
upserted_ref e row change none h = refl
upserted_ref e row change (some o) h = ap (λ d. tally d e) (h o)

write_object-Owing :
    (draw : Draw) (new : Object) (db : Tables)
    → Owing (tally new.blob_digest) db
    → Owing
        (λ e. weight? (object_ref e) (find (at_key new.bucket_id new.key) db.objects))
        (write_object draw new db)
unfolding write_object
write_object-Owing draw new db books e = omega (
  arith,
  books e,
  weight-upsert (object_ref e) (at_key new.bucket_id new.key) (inserted draw new)
      (overwritten draw new) db.objects,
  upserted_ref e (inserted draw new) (overwritten draw new)
      (find (at_key new.bucket_id new.key) db.objects) (λ x. refl),
)

release_current-Owing :
    (extra : Bytes → ℕ) (cur : CurrentState) (db : Tables)
    → Owing (λ e. extra e + current_ref e cur) db
    → Owing extra (release_current cur db)
unfolding release_current
release_current-Owing extra cur db books = elim (Bool-cases cur.exists) [
  | inl h ↦
      rw (h, release_current)
        λ e. omega (
          arith,
          books e,
          ap (λ b. if b then tally cur.object.blob_digest e else 0) h,
          refcount-release cur.object.blob_digest e db.blobs,
        )
  | inr h ↦
      rw (h, release_current)
        λ e. omega (arith, books e, ap (λ b. if b then tally cur.object.blob_digest e else 0) h)
]

release_current_rows :
    (cur : CurrentState) (db : Tables) → (release_current cur db).versions ≡ db.versions
unfolding release_current
release_current_rows cur db = ground arith

make_room-Recorded :
    (bucket key : Bytes) (opts : WriteOptions) (db : Tables)
    → Owing nothing db
    → Distinct db.versions
    → Recorded nothing db (make_room bucket key opts db)
unfolding make_room
make_room-Recorded bucket key opts db books d = elim (Bool-cases (versioned opts.versioning)) [
  | inl e ↦ rw (e, make_room) (refl, books, d)
  | inr e ↦ rw (e, make_room) (replace_null_version-Recorded nothing bucket key db books d)
]

-- From the write of the row on: the reference of the replaced row is given up.
written-IsBalanced :
    (draw : Draw) (new : Object) (db t : Tables)
    → t.objects ≡ db.objects
    → Owing (tally new.blob_digest) t
    → IsBalanced (
        release_current
          (located new.bucket_id new.key (read_current new.bucket_id new.key db))
          (write_object draw new t))
written-IsBalanced draw new db t same books e = omega (
  arith,
  release_current-Owing nothing
      (located new.bucket_id new.key (read_current new.bucket_id new.key db))
      (write_object draw new t)
      (λ y. omega (
        arith,
        write_object-Owing draw new t books y,
        ap (λ os. weight? (object_ref y) (find (at_key new.bucket_id new.key) os)) same,
        current_ref-find y new.bucket_id new.key db,
      ))
      e,
)

-- PutObject keeps the counts equal to the numbers of rows that name each blob.
pub put_object-IsConsistent :
    (draw : Draw) (obj : Object) (opts : WriteOptions) (db : Tables)
    → IsConsistent db
    → Ensures IsConsistent (put_object draw obj opts db)
unfolding put_object
put_object-IsConsistent draw obj opts db c =
    elim (Result-cases (supersede draw previous opts retained)) [
      | inl ((version, t), e) ↦
          rw (e, put_object)
            (let (same, books, d) =
                Ensures_of_eq (λ r. Recorded (tally obj.blob_digest) retained r.1) _ _ moved e in
              let new = record obj { version_id = version } in
              record {
                balanced = written-IsBalanced draw new db t same books;
                distinct =
                    subst Distinct (sym (release_current_rows previous (write_object draw new t)))
                      d;
              })
      | inr (x, e) ↦ rw (e, put_object) tt
    ]
  where
    previous : CurrentState
    previous = located obj.bucket_id obj.key (read_current obj.bucket_id obj.key db)

    retained : Tables
    retained = record db { blobs = retain_blob draw.now obj.blob_digest obj.size db.blobs }

    moved :
        Ensures
          (λ r. Recorded (tally obj.blob_digest) retained r.1)
          (supersede draw previous opts retained)
    moved =
        supersede-Recorded (tally obj.blob_digest) draw previous opts retained
          (λ x.
            omega
              (arith, c.balanced x, refcount-retain draw.now obj.size obj.blob_digest x db.blobs))
          c.distinct

pub remove_current-IsBalanced :
    (bucket key : Bytes) (db t : Tables)
    → t.objects ≡ db.objects
    → IsBalanced t
    → (located bucket key (read_current bucket key db)).exists ≡ true
    → IsBalanced (remove_current bucket key (located bucket key (read_current bucket key db)) t)
unfolding remove_current
remove_current-IsBalanced bucket key db t same books there e = omega (
  arith,
  books e,
  weight-remove (object_ref e) (at_key bucket key) t.objects,
  ap (λ os. weight? (object_ref e) (find (at_key bucket key) os)) same,
  current_ref-find e bucket key db,
  exists_ref e (located bucket key (read_current bucket key db)) there,
  refcount-release (located bucket key (read_current bucket key db)).object.blob_digest e t.blobs,
)
  where
    exists_ref :
        (e : Bytes) (cur : CurrentState)
        → cur.exists ≡ true
        → current_ref e cur ≡ tally cur.object.blob_digest e
    exists_ref e cur h = ground arith

place_marker-Recorded :
    (draw : Draw) (bucket key : Bytes) (opts : WriteOptions) (db : Tables)
    → Owing nothing db
    → Distinct db.versions
    → Ensures (λ r. Recorded nothing db r.1) (place_marker draw bucket key opts db)
unfolding place_marker
place_marker-Recorded draw bucket key opts db books d = elim (Result-cases attempt) [
  | inl (t, e) ↦
      rw (e, place_marker)
        (let r = Ensures_of_eq (Recorded nothing room) attempt t done e in
          (r.0 ∙ cleared.0, r.1, r.2))
  | inr (x, e) ↦ rw (e, place_marker) tt
]
  where
    room : Tables
    room = make_room bucket key opts db

    attempt : Result Error Tables
    attempt =
        record_version draw.now draw.recorded_row draw.recorded_version
          (marker_of draw bucket key opts) room

    cleared : Recorded nothing db room
    cleared = make_room-Recorded bucket key opts db books d

    done : Ensures (Recorded nothing room) attempt
    done =
        record_version-Recorded nothing draw.now draw.recorded_row draw.recorded_version
          (marker_of draw bucket key opts) room cleared.1 cleared.2

pub write_marker-Recorded :
    (draw : Draw) (bucket key : Bytes) (removed : CurrentState) (opts : WriteOptions) (db : Tables)
    → IsConsistent db
    → Ensures (λ r. Recorded nothing db r.1) (write_marker draw bucket key removed opts db)
unfolding write_marker
write_marker-Recorded draw bucket key removed opts db c =
    elim (Result-cases (supersede draw removed opts db)) [
      | inl ((version, kept), e) ↦
          rw (e, write_marker)
            (let k =
                Ensures_of_eq (λ r. Recorded nothing db r.1) (supersede draw removed opts db)
                  (version, kept) moved e in
              Ensures-map (λ r. Recorded nothing kept r.1) (λ r. Recorded nothing db r.1)
                (place_marker draw bucket key opts kept) (λ r h. (h.0 ∙ k.0, h.1, h.2))
                (place_marker-Recorded draw bucket key opts kept k.1 k.2))
      | inr (x, e) ↦ rw (e, write_marker) tt
    ]
  where
    moved : Ensures (λ r. Recorded nothing db r.1) (supersede draw removed opts db)
    moved =
        supersede-Recorded nothing draw removed opts db (λ x. omega (arith, c.balanced x))
          c.distinct

begin_delete-Recorded :
    (draw : Draw) (bucket key : Bytes) (removed : CurrentState) (opts : WriteOptions) (db : Tables)
    → IsConsistent db
    → Ensures (λ r. Recorded nothing db r.1) (begin_delete draw bucket key removed opts db)
unfolding begin_delete
begin_delete-Recorded draw bucket key removed opts db c =
    Ensures-if {E = Error} (λ r. Recorded nothing db r.1) (configured opts.versioning)
      (write_marker draw bucket key removed opts db) (ok ([], db))
      (λ _. write_marker-Recorded draw bucket key removed opts db c)
      (λ _. (refl, (λ x. omega (arith, c.balanced x)), c.distinct))

finish_delete-IsConsistent :
    (bucket key : Bytes) (opts : WriteOptions) (marker : Bytes) (db t : Tables)
    → Recorded nothing db t
    → IsConsistent
        (finish_delete bucket key (located bucket key (read_current bucket key db)) opts marker t).1
unfolding finish_delete
finish_delete-IsConsistent bucket key opts marker db t r =
    elim (Bool-cases (located bucket key (read_current bucket key db)).exists) [
      | inl e ↦
          rw (e, finish_delete)
            (record {
              balanced =
                  remove_current-IsBalanced bucket key db t r.0 (λ x. omega (arith, r.1 x)) e;
              distinct = r.2;
            })
      | inr e ↦
          rw (e, finish_delete) (record { balanced = λ x. omega (arith, r.1 x); distinct = r.2 })
    ]

-- DeleteObject keeps the counts equal to the numbers of rows that name each blob.
pub delete_object-IsConsistent :
    (draw : Draw) (bucket key : Bytes) (opts : WriteOptions) (db : Tables)
    → IsConsistent db
    → Ensures (λ r. IsConsistent r.1) (delete_object draw bucket key opts db)
unfolding delete_object
delete_object-IsConsistent draw bucket key opts db c =
    elim (Result-cases (begin_delete draw bucket key removed opts db)) [
      | inl ((marker, t), h) ↦
          rw (h, delete_object)
            (finish_delete-IsConsistent bucket key opts marker db t (
              Ensures_of_eq (λ r. Recorded nothing db r.1)
                (begin_delete draw bucket key removed opts db) (marker, t)
                (begin_delete-Recorded draw bucket key removed opts db c) h))
      | inr (x, h) ↦ rw (h, delete_object) tt
    ]
  where
    removed : CurrentState
    removed = located bucket key (read_current bucket key db)
