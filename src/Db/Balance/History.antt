-- ===== src/Db/Balance/History.antt =====
-- versions.go and version_access.go: the books under deleting, promoting and purging versions.
use infra_lightwight_s3_serv.Prelude.{
  ◌+◌, ◌==◌, ◌⊎◌, true, false, not, ◌||◌, Bytes, List, [], ◌∷◌, bytes_eq, find, weight, weight?,
  any, keep, Option, none, some, ◌≡◌, refl, arith, Result, ok, err, Ensures, ◌>>=◌, weight-remove,
  weight-cons, find-any, Bool-cases, Option-cases, inl, inr, weight-keep, ap, Result-cases,
  Ensures-if, Ensures->>=, IfFound, ◌∙◌, sym, subst, Ensures_of_eq, ==_refl, find-cons,
}
use infra_lightwight_s3_serv.Db.Rows.{
  Tables, ObjectVersion, Draw, Error, at_key, of_key, nil_dereference,
}
use infra_lightwight_s3_serv.Db.Versioning.{internal_version_id}
use infra_lightwight_s3_serv.Db.Blobs.{retain_blob}
use infra_lightwight_s3_serv.Db.Versions.{
  purge_version, purge_key_versions, delete_version_row, has_blob,
}
use infra_lightwight_s3_serv.Db.Current.{CurrentState, read_current, located}
use infra_lightwight_s3_serv.Db.Objects.{
  Deletion, newest_version, insert_promoted, promote_version, promote_newest_version,
  promote_if_vacant, delete_addressed, delete_object_version, is_current, version_or_null,
}
use infra_lightwight_s3_serv.Db.Balance.{
  tally, object_ref, version_ref, Owing, Distinct, IsConsistent,
}
use infra_lightwight_s3_serv.Db.Balance.Primitives.{
  Recorded, refcount-release, refcount-retain, remove-Distinct, keep-Distinct,
  delete_version_row-Recorded, release_each-Owing, release_each_rows,
}
use infra_lightwight_s3_serv.Db.Balance.Transactions.{nothing, remove_current-IsBalanced}

newest_version-cons :
    (bucket key : Bytes) (w : ObjectVersion) (ws : List ObjectVersion)
    → (newest_version bucket key (w ∷ ws) ≡ some w)
      ⊎ (newest_version bucket key (w ∷ ws) ≡ newest_version bucket key ws)
unfolding newest_version
newest_version-cons bucket key w ws = ground arith

-- The newest version of a key is the row that its row id selects.
newest_version-find :
    (bucket key : Bytes) (vs : List ObjectVersion) (v : ObjectVersion)
    → Distinct vs
    → newest_version bucket key vs ≡ some v
    → find (λ w. w.id == v.id) vs ≡ some v
unfolding newest_version
newest_version-find bucket key [] v d h = absurd (cc)
newest_version-find bucket key (w ∷ ws) v d h = elim (newest_version-cons bucket key w ws) [
  | inl e ↦
      let same : w ≡ v = cc in
      subst (λ u. find (λ z. z.id == u.id) (w ∷ ws) ≡ some u) same
        (rw (find-cons (λ z. z.id == w.id) w ws, ==_refl w.id))
  | inr e ↦
      let found : find (λ z. z.id == v.id) ws ≡ some v =
        newest_version-find bucket key ws v d.1 (sym e ∙ h) in
      let apart : (v.id == w.id) ≡ false =
        find-any (λ z. z.id == v.id) (λ z. z.id == w.id) ws v found d.0 in
      rw (find-cons (λ z. z.id == v.id) w ws) (ground arith)
]

insert_promoted-Owing :
    (draw : Draw) (bucket key digest : Bytes) (v : ObjectVersion) (db : Tables)
    → Owing (tally digest) db
    → Ensures
        (λ t. (t.versions ≡ db.versions) × Owing nothing t)
        (insert_promoted draw bucket key digest v db)
unfolding insert_promoted
insert_promoted-Owing draw bucket key digest v db books =
    elim (Bool-cases (any (at_key bucket key) db.objects)) [
      | inl e ↦ rw (e, insert_promoted) tt
      | inr e ↦
          rw (e, insert_promoted) (refl, λ x. omega (arith, books x, weight-cons (object_ref x)))
    ]

promote_version-IsConsistent :
    (draw : Draw) (bucket key digest : Bytes) (v : ObjectVersion) (db : Tables)
    → IsConsistent db
    → find (λ w. w.id == v.id) db.versions ≡ some v
    → v.blob_digest ≡ some digest
    → Ensures IsConsistent (promote_version draw bucket key v digest db)
unfolding promote_version
promote_version-IsConsistent draw bucket key digest v db c found blob =
    elim (Result-cases attempt) [
      | inl (t, e) ↦
          rw (e, promote_version)
            (let (same, books) =
                Ensures_of_eq (λ t. (t.versions ≡ db.versions) × Owing nothing t) attempt t done
                  e in
              record {
                balanced = λ x. omega (
                  arith,
                  books x,
                  refcount-release digest x t.blobs,
                  weight-remove (version_ref x) (λ w. w.id == v.id) t.versions,
                  ap (λ vs. weight? (version_ref x) (find (λ w. w.id == v.id) vs)) same,
                  ap (weight? (version_ref x)) found,
                  ap (weight? (λ d. tally d x)) blob,
                );
                distinct =
                    remove-Distinct (λ w. w.id == v.id) t.versions
                      (subst Distinct (sym same) c.distinct);
              })
      | inr (x, e) ↦ rw (e, promote_version) tt
    ]
  where
    retained : Tables
    retained = record db { blobs = retain_blob draw.now digest v.size db.blobs }

    attempt : Result Error Tables
    attempt = insert_promoted draw bucket key digest v retained

    done : Ensures (λ t. (t.versions ≡ db.versions) × Owing nothing t) attempt
    done =
        insert_promoted-Owing draw bucket key digest v retained
          (λ x. omega (arith, c.balanced x, refcount-retain draw.now v.size digest x db.blobs))

promote_newest_version-IsConsistent :
    (draw : Draw) (bucket key : Bytes) (db : Tables)
    → IsConsistent db
    → Ensures IsConsistent (promote_newest_version draw bucket key db)
unfolding promote_newest_version
promote_newest_version-IsConsistent draw bucket key db c =
    elim (Option-cases (newest_version bucket key db.versions)) [
      | inl e ↦ rw (e, promote_newest_version) c
      | inr (v, e) ↦
          rw (e, promote_newest_version)
            (Ensures-if {E = Error} IsConsistent v.is_delete_marker (ok db) _ (λ _. c)
              (λ _. with_digest v e v.blob_digest refl))
    ]
  where
    with_digest :
        (v : ObjectVersion)
        → newest_version bucket key db.versions ≡ some v
        → (o : Option Bytes) → v.blob_digest ≡ o
        → Ensures IsConsistent (elim o [
          | none ↦ err nil_dereference
          | some digest ↦ promote_version draw bucket key v digest db
        ])
    with_digest v e none h = tt
    with_digest v e (some digest) h =
        promote_version-IsConsistent draw bucket key digest v db c
          (newest_version-find bucket key db.versions v c.distinct e) h

delete_addressed-IsConsistent :
    (bucket key stored : Bytes) (db : Tables)
    → IsConsistent db
    → Ensures
        (λ r. IsConsistent r.1)
        (delete_addressed bucket key stored (read_current bucket key db) db)
unfolding delete_addressed located read_current
delete_addressed-IsConsistent bucket key stored db c =
    elim (Bool-cases (is_current (read_current bucket key db) stored)) [
      | inl e ↦
          rw (e, delete_addressed)
            (record {
              balanced =
                  remove_current-IsBalanced bucket key db db refl c.balanced
                    (is_current_exists (read_current bucket key db) stored e);
              distinct = c.distinct;
            })
      | inr e ↦
          rw (e, delete_addressed)
            (elim (Option-cases (delete_version_row bucket key (version_or_null stored) db)) [
              | inl h ↦ rw (h, delete_addressed) tt
              | inr (r, h) ↦ rw (h, delete_addressed) (row_gone r h)
            ])
    ]
  where
    is_current_exists :
        (cur : CurrentState) (stored : Bytes) → is_current cur stored ≡ true → cur.exists ≡ true
    is_current_exists cur stored h = ground arith

    row_gone :
        (r : ObjectVersion × Tables)
        → delete_version_row bucket key (version_or_null stored) db ≡ some r
        → IsConsistent r.1
    row_gone r h =
        let g = subst (IfFound (λ q. Recorded nothing db q.1)) h (
          delete_version_row-Recorded nothing bucket key (version_or_null stored) db
            (λ x. omega (arith, c.balanced x)) c.distinct) in
        record { balanced = λ x. omega (arith, g.1 x); distinct = g.2 }

promote_if_vacant-IsConsistent :
    (draw : Draw) (bucket key stored : Bytes) (cur : CurrentState) (db : Tables)
    → IsConsistent db
    → Ensures IsConsistent (promote_if_vacant draw bucket key stored cur db)
unfolding promote_if_vacant
promote_if_vacant-IsConsistent draw bucket key stored cur db c =
    Ensures-if {E = Error} IsConsistent (not cur.exists || bytes_eq cur.version_id stored)
      (promote_newest_version draw bucket key db) (ok db)
      (λ _. promote_newest_version-IsConsistent draw bucket key db c) (λ _. c)

-- DeleteObjectVersion, with the promotion that may follow, keeps the counts equal to the numbers of
-- rows that name each blob.
pub delete_object_version-IsConsistent :
    (draw : Draw) (bucket key version : Bytes) (db : Tables)
    → IsConsistent db
    → Ensures (λ r. IsConsistent r.1) (delete_object_version draw bucket key version db)
unfolding delete_object_version
delete_object_version-IsConsistent draw bucket key version db c = elim (Result-cases attempt) [
  | inl ((result, t), e) ↦
      rw (e, delete_object_version)
        (promoted result t (
          Ensures_of_eq (λ r. IsConsistent r.1) attempt (result, t)
            (delete_addressed-IsConsistent bucket key (internal_version_id version) db c) e))
  | inr (x, e) ↦ rw (e, delete_object_version) tt
]
  where
    attempt : Result Error (Deletion × Tables)
    attempt =
        delete_addressed bucket key (internal_version_id version) (read_current bucket key db) db

    promoted :
        (result : Deletion) (t : Tables)
        → IsConsistent t
        → Ensures
            (λ (r : Deletion × Tables). IsConsistent r.1)
            (promote_if_vacant draw bucket key
                (internal_version_id version)
                (read_current bucket key db)
                t
              >>= λ p. ok (result, p))
    promoted result t k =
        Ensures->>= {E = Error} {B = Deletion × Tables} IsConsistent (λ r. IsConsistent r.1)
          (promote_if_vacant draw bucket key (internal_version_id version)
            (read_current bucket key db) t)
          (λ p. ok (result, p))
          (promote_if_vacant-IsConsistent draw bucket key (internal_version_id version)
            (read_current bucket key db) t k)
          (λ p h. h)

-- PurgeVersion keeps the counts equal to the numbers of rows that name each blob.
pub purge_version-IsConsistent :
    (bucket key version : Bytes) (db : Tables)
    → IsConsistent db
    → Ensures IsConsistent (purge_version bucket key version db)
unfolding purge_version
purge_version-IsConsistent bucket key version db c =
    elim (Option-cases (delete_version_row bucket key version db)) [
      | inl h ↦ rw (h, purge_version) tt
      | inr (r, h) ↦
          rw (h, purge_version)
            (let g = subst (IfFound (λ q. Recorded nothing db q.1)) h (
                delete_version_row-Recorded nothing bucket key version db
                  (λ x. omega (arith, c.balanced x)) c.distinct) in
              record { balanced = λ x. omega (arith, g.1 x); distinct = g.2 })
    ]

has_blob-weight :
    (e : Bytes) (vs : List ObjectVersion)
    → weight (version_ref e) (keep has_blob vs) ≡ weight (version_ref e) vs
unfolding has_blob weight
has_blob-weight e [] = refl
has_blob-weight e (v ∷ vs) = ground (arith, has_blob-weight e vs)

-- PurgeKeyVersions keeps the counts equal to the numbers of rows that name each blob.
pub purge_key_versions-IsConsistent :
    (bucket key : Bytes) (db : Tables)
    → IsConsistent db
    → IsConsistent (purge_key_versions bucket key db).1
unfolding purge_key_versions
purge_key_versions-IsConsistent bucket key db c = record {
  balanced = λ x. omega (arith, release_each-Owing nothing purged rest owing x);
  distinct =
      subst Distinct (sym (release_each_rows purged rest).1)
        (keep-Distinct (λ v. not (of_key bucket key v)) db.versions c.distinct);
}
  where
    purged : List ObjectVersion
    purged = keep has_blob (keep (of_key bucket key) db.versions)

    rest : Tables
    rest = record db { versions = keep (λ v. not (of_key bucket key v)) db.versions }

    owing : Owing (λ e. nothing e + weight (version_ref e) purged) rest
    owing e = omega (
      arith,
      c.balanced e,
      weight-keep (version_ref e) (of_key bucket key) db.versions,
      has_blob-weight e (keep (of_key bucket key) db.versions),
    )
