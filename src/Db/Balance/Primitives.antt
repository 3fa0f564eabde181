-- ===== src/Db/Balance/Primitives.antt =====
-- What each primitive of a transaction does to the books.
use infra_lightwight_s3_serv.Prelude.{
  ℕ, ◌+◌, ◌-◌, ◌==◌, Bool, Bytes, List, [], ◌∷◌, bytes_eq_iff, find, remove, upsert, update, weight,
  weight?, keep, Option, none, some, if◌then◌else◌, ◌≡◌, refl, arith, ok, err, Ensures,
  weight-remove, weight-cons, any-remove, any-keep, any-or, Bool-cases, Option-cases, inl, inr, ap,
  Ensures->>=, Ensures-if, Ensures-map, IfFound, ◌∙◌, sym, subst,
}
use infra_lightwight_s3_serv.Db.Rows.{
  Tables, ObjectVersion, Blob, Draw, Error, check_violation, at_key, at_version,
}
use infra_lightwight_s3_serv.Db.Blobs.{retain_blob, release_blob}
use infra_lightwight_s3_serv.Db.Versions.{
  marker_has_no_blob, insert_version, record_version, stored_version, retain_digest, release_digest,
  release_each, delete_version_row,
}
use infra_lightwight_s3_serv.Db.Current.{
  CurrentState, WriteOptions, read_current, located, supersede, superseded, preserves, preserve,
  incoming_version, replace_null_version,
}
use infra_lightwight_s3_serv.Db.Versioning.{null_version_id}
use infra_lightwight_s3_serv.Db.Balance.{
  tally, refcount, object_ref, version_ref, references, Owing, Distinct,
}

pub refcount-retain :
    (now size : ℕ) (d e : Bytes) (bs : List Blob)
    → refcount e (retain_blob now d size bs) ≡ refcount e bs + tally d e
unfolding refcount retain_blob upsert find tally
refcount-retain now size d e [] = ground (arith)
refcount-retain now size d e (b ∷ bs) = ground (
  arith,
  bytes_eq_iff b.digest d,
  bytes_eq_iff b.digest e,
  bytes_eq_iff d e,
  refcount-retain now size d e bs,
)

pub refcount-release :
    (d e : Bytes) (bs : List Blob) → refcount e (release_blob d bs) ≡ refcount e bs - tally d e
unfolding refcount release_blob update find tally
refcount-release d e [] = ground (arith)
refcount-release d e (b ∷ bs) = ground (
  arith,
  bytes_eq_iff b.digest d,
  bytes_eq_iff b.digest e,
  bytes_eq_iff d e,
  refcount-release d e bs,
)

module _ (extra : Bytes → ℕ) (db : Tables) (books : Owing extra db) where
  pub retain-Owing :
      (now size : ℕ) (d : Bytes)
      → Owing (λ e. extra e + tally d e) (record db { blobs = retain_blob now d size db.blobs })
  retain-Owing now size d e = omega (arith, books e, refcount-retain now size d e db.blobs)

-- What a step of a transaction leaves: the same objects, the books as they were, distinct row ids.
abbrev pub Recorded : (Bytes → ℕ) → Tables → Tables → Type 0
Recorded extra db t = (t.objects ≡ db.objects) × Owing extra t × Distinct t.versions

insert_version-Recorded :
    (extra : Bytes → ℕ) (row : ObjectVersion) (db : Tables)
    → ((e : Bytes) → refcount e db.blobs ≡ references e db + extra e + version_ref e row)
    → Distinct db.versions
    → Ensures (Recorded extra db) (insert_version row db)
unfolding insert_version
insert_version-Recorded extra row db books d =
    Ensures-if (Recorded extra db) _ _ _ (λ e. tt)
      λ fresh.
        Ensures-if {E = Error} (Recorded extra db)
          (marker_has_no_blob row.is_delete_marker row.blob_digest)
          (ok (record db { versions = row ∷ db.versions })) (err check_violation)
          (λ e. (
            refl,
            λ x. omega (arith, books x, weight-cons (version_ref x) row db.versions),
            (
              any-or (λ v. v.id == row.id) (at_version row.bucket_id row.key row.version_id)
                  db.versions fresh,
              d,
            ),
          ))
          (λ e. tt)

pub retain_digest_effect :
    (now size : ℕ) (o : Option Bytes) (db : Tables)
    → ((retain_digest now o size db).objects ≡ db.objects)
      × ((retain_digest now o size db).versions ≡ db.versions)
      × ((retain_digest now o size db).parts ≡ db.parts)
      × ((e : Bytes)
          → refcount e (retain_digest now o size db).blobs
            ≡ refcount e db.blobs + weight? (λ d. tally d e) o)
unfolding retain_digest
retain_digest_effect now size none db = (refl, refl, refl, λ e. omega arith)
retain_digest_effect now size (some d) db =
    (refl, refl, refl, λ e. refcount-retain now size d e db.blobs)

-- A version that is recorded brings the reference that it takes.
pub record_version-Recorded :
    (extra : Bytes → ℕ) (now row : ℕ) (minted : Bytes) (version : ObjectVersion) (db : Tables)
    → Owing extra db
    → Distinct db.versions
    → Ensures (Recorded extra db) (record_version now row minted version db)
unfolding record_version
record_version-Recorded extra now row minted version db books d =
    let (os, vs, ps, bs) = retain_digest_effect now version.size version.blob_digest db in
    let retained = retain_digest now version.blob_digest version.size db in
    Ensures-map (Recorded extra retained) (Recorded extra db) _ (λ t r. (r.0 ∙ os, r.1, r.2))
      (insert_version-Recorded extra (stored_version now row minted version) retained
        (λ e. rw (os, vs, ps) (omega (arith, bs e, books e))) (subst Distinct (sym vs) d))

-- A row that goes gives up its reference.
pub release_digest-Owing :
    (extra : Bytes → ℕ) (o : Option Bytes) (db : Tables)
    → Owing (λ e. extra e + weight? (λ d. tally d e) o) db
    → Owing extra (release_digest o db)
unfolding release_digest
release_digest-Owing extra none db books = λ e. omega (arith, books e)
release_digest-Owing extra (some d) db books =
    λ e. omega (arith, books e, refcount-release d e db.blobs)

pub release_digest_rows :
    (o : Option Bytes) (db : Tables)
    → ((release_digest o db).objects ≡ db.objects) × ((release_digest o db).versions ≡ db.versions)
unfolding release_digest
release_digest_rows none db = (refl, refl)
release_digest_rows (some d) db = (refl, refl)

pub remove-Distinct :
    (p : ObjectVersion → Bool) (vs : List ObjectVersion) → Distinct vs → Distinct (remove p vs)
unfolding remove
remove-Distinct p [] d = tt
remove-Distinct p (v ∷ vs) d = elim (Bool-cases (p v)) [
  | inl e ↦ rw e d.1
  | inr e ↦ rw e (any-remove (λ w. w.id == v.id) p vs d.0, remove-Distinct p vs d.1)
]

pub keep-Distinct :
    (p : ObjectVersion → Bool) (vs : List ObjectVersion) → Distinct vs → Distinct (keep p vs)
keep-Distinct p [] d = tt
keep-Distinct p (v ∷ vs) d = elim (Bool-cases (p v)) [
  | inl e ↦ rw e (any-keep (λ w. w.id == v.id) p vs d.0, keep-Distinct p vs d.1)
  | inr e ↦ rw e (keep-Distinct p vs d.1)
]

-- A row of the history that goes takes its reference along.
pub delete_version_row-Recorded :
    (extra : Bytes → ℕ) (bucket key version : Bytes) (db : Tables)
    → Owing extra db
    → Distinct db.versions
    → IfFound (λ r. Recorded extra db r.1) (delete_version_row bucket key version db)
unfolding delete_version_row
delete_version_row-Recorded extra bucket key version db books d =
    elim (Option-cases (find (at_version bucket key version) db.versions)) [
      | inl e ↦ rw (e, delete_version_row) tt
      | inr (v, e) ↦
          rw (e, delete_version_row)
            (let rest = record db {
              versions = remove (at_version bucket key version) db.versions;
            } in
              let (os, vs) = release_digest_rows v.blob_digest rest in
              (
                os,
                release_digest-Owing extra v.blob_digest rest (λ x. omega (
                  arith,
                  books x,
                  ap (weight? (version_ref x)) e,
                  weight-remove (version_ref x) (at_version bucket key version) db.versions,
                )),
                subst Distinct (sym vs)
                    (remove-Distinct (at_version bucket key version) db.versions d),
              ))
    ]

pub replace_null_version-Recorded :
    (extra : Bytes → ℕ) (bucket key : Bytes) (db : Tables)
    → Owing extra db
    → Distinct db.versions
    → Recorded extra db (replace_null_version bucket key db)
unfolding replace_null_version
replace_null_version-Recorded extra bucket key db books d =
    elim (Option-cases (delete_version_row bucket key null_version_id db)) [
      | inl e ↦ rw (e, replace_null_version) (refl, books, d)
      | inr (r, e) ↦
          rw (e, replace_null_version)
            (subst (IfFound (λ q. Recorded extra db q.1)) e
              (delete_version_row-Recorded extra bucket key null_version_id db books d))
    ]

preserve-Recorded :
    (extra : Bytes → ℕ) (draw : Draw) (cur : CurrentState) (opts : WriteOptions) (db : Tables)
    → Owing extra db
    → Distinct db.versions
    → Ensures (Recorded extra db) (preserve draw cur opts db)
unfolding preserve
preserve-Recorded extra draw cur opts db books d =
    Ensures-if {E = Error} (Recorded extra db) (preserves opts.versioning cur)
      (record_version draw.now draw.superseded_row draw.recorded_version (superseded cur opts.actor)
        db)
      (ok db)
      (λ _.
        record_version-Recorded extra draw.now draw.superseded_row draw.recorded_version
          (superseded cur opts.actor) db books d)
      (λ _. (refl, books, d))

-- Moving the replaced version into history keeps the books: its row takes a reference of its own.
pub supersede-Recorded :
    (extra : Bytes → ℕ) (draw : Draw) (cur : CurrentState) (opts : WriteOptions) (db : Tables)
    → Owing extra db
    → Distinct db.versions
    → Ensures (λ r. Recorded extra db r.1) (supersede draw cur opts db)
unfolding supersede
supersede-Recorded extra draw cur opts db books d =
    Ensures->>= {E = Error} {B = Bytes × Tables} (Recorded extra db) (λ r. Recorded extra db r.1)
      (preserve draw cur opts db) (λ t. ok (incoming_version draw opts, t))
      (preserve-Recorded extra draw cur opts db books d) (λ t r. r)

-- The reference of the row that holds the current version.
abbrev pub current_ref : Bytes → CurrentState → ℕ
current_ref e cur = if cur.exists then tally cur.object.blob_digest e else 0

pub current_ref-find :
    (e bucket key : Bytes) (db : Tables)
    → weight? (object_ref e) (find (at_key bucket key) db.objects)
      ≡ current_ref e (located bucket key (read_current bucket key db))
unfolding located read_current
current_ref-find e bucket key db = elim (Option-cases (find (at_key bucket key) db.objects)) [
  | inl h ↦ rw (h, read_current)
  | inr (o, h) ↦ rw (h, read_current)
]

pub release_each-Owing :
    (extra : Bytes → ℕ) (vs : List ObjectVersion) (db : Tables)
    → Owing (λ e. extra e + weight (version_ref e) vs) db
    → Owing extra (release_each vs db)
unfolding release_each weight
release_each-Owing extra [] db books = λ e. omega (arith, books e)
release_each-Owing extra (v ∷ vs) db books =
    release_each-Owing extra vs (release_digest v.blob_digest db) (
      release_digest-Owing (λ e. extra e + weight (version_ref e) vs) v.blob_digest db
        (λ e. omega (arith, books e, weight-cons (version_ref e) v vs)))

pub release_each_rows :
    (vs : List ObjectVersion) (db : Tables)
    → ((release_each vs db).objects ≡ db.objects) × ((release_each vs db).versions ≡ db.versions)
unfolding release_each
release_each_rows [] db = (refl, refl)
release_each_rows (v ∷ vs) db =
    let (a, b) = release_each_rows vs (release_digest v.blob_digest db) in
    let (c, d) = release_digest_rows v.blob_digest db in (a ∙ c, b ∙ d)
