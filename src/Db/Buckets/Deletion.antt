-- ===== src/Db/Buckets/Deletion.antt =====
-- internal/db/buckets.go: what the deletion of a bucket takes along.
use infra_lightwight_s3_serv.Prelude.{
  ◌+◌, ◌==◌, Bool, true, false, not, ◌&&◌, ◌||◌, Bytes, List, [], ◌∷◌, bytes_eq, find, any, keep,
  weight, weight-keep, some, ok, ◌≡◌, refl, arith, Option-cases, Bool-cases, inl, inr, ok-injective,
  ap, sym, ◌∙◌,
}
use infra_lightwight_s3_serv.Db.Rows.{Tables, Object, ObjectVersion, MultipartUpload, MultipartPart}
use infra_lightwight_s3_serv.Db.Buckets.{
  Bucket, Namespace, named, has_objects, has_uploads, cascade, delete_bucket,
}
use infra_lightwight_s3_serv.Db.Balance.{refcount, references, version_ref, IsBalanced}

keep-none {ℓ} :
    {A : Type ℓ} (p : A → Bool) (xs : List A) → any p xs ≡ false → keep (λ x. not (p x)) xs ≡ xs
keep-none p [] h = refl
keep-none p (x ∷ xs) h = elim (Bool-cases (p x)) [
  | inl e ↦ absurd (ground arith)
  | inr e ↦ rw e (ap (◌∷◌ x) (keep-none p xs (ground arith)))
]

any-and {ℓ} :
    {A : Type ℓ} (p q : A → Bool) (xs : List A)
    → any p xs ≡ false
    → any (λ x. p x && q x) xs ≡ false
any-and p q [] h = refl
any-and p q (x ∷ xs) h = ground (arith, any-and p q xs)

parts_stay :
    (id : Bytes) (us : List MultipartUpload) (ps : List MultipartPart)
    → any (λ (u : MultipartUpload). bytes_eq u.bucket_id id) us ≡ false
    → keep
        (λ (p : MultipartPart).
          not (any (λ (u : MultipartUpload). bytes_eq u.bucket_id id && u.id == p.upload) us))
        ps
      ≡ ps
parts_stay id us [] h = refl
parts_stay id us (p ∷ ps) h =
    rw (any-and (λ (u : MultipartUpload). bytes_eq u.bucket_id id) (λ u. u.id == p.upload) us h)
      (ap (◌∷◌ p) (parts_stay id us ps h))

or_false : (a b : Bool) → (a || b) ≡ false → (a ≡ false) × (b ≡ false)
or_false true b h = absurd (cc)
or_false false b h = (refl, h)

-- What a deletion found, and what it left.
module _ (name : Bytes) (buckets : List Bucket) (db : Tables) (s : Namespace)
    (h : delete_bucket name (buckets, db) ≡ ok s) where
  deleted_bucket :
      (b : Bucket) × (find (named name) buckets ≡ some b)
      × (has_objects b.id db ≡ false)
      × (has_uploads b.id db ≡ false)
      × (s.1 ≡ cascade b.id db)
  unfolding delete_bucket
  deleted_bucket = elim (Option-cases (find (named name) buckets)) [
    | inl e ↦ absurd (cc (rw (e, delete_bucket) at h))
    | inr (b, e) ↦ elim (Bool-cases (has_objects b.id db || has_uploads b.id db)) [
      | inl k ↦ absurd (cc (rw (e, k, delete_bucket) at h))
      | inr k ↦
          let (o, u) = or_false (has_objects b.id db) (has_uploads b.id db) k in
          (
            b,
            e,
            o,
            u,
            ap (λ (t : Namespace). t.1) (sym (ok-injective (rw (e, k, delete_bucket) at h))),
          )
    ]
  ]

  -- Deleting a bucket removes no object, no upload and no part, of this bucket or another, and
  -- changes no count of a blob.
  pub delete_bucket_rows :
      (s.1.objects ≡ db.objects)
      × (s.1.uploads ≡ db.uploads)
      × (s.1.parts ≡ db.parts)
      × (s.1.blobs ≡ db.blobs)
  unfolding cascade has_objects has_uploads
  delete_bucket_rows =
      let (b, e, o, u, c) = deleted_bucket in
      (
        ap (λ (t : Tables). t.objects) c
            ∙ keep-none (λ (x : Object). bytes_eq x.bucket_id b.id) db.objects o,
        ap (λ (t : Tables). t.uploads) c
            ∙ keep-none (λ (x : MultipartUpload). bytes_eq x.bucket_id b.id) db.uploads u,
        ap (λ (t : Tables). t.parts) c ∙ parts_stay b.id db.uploads db.parts u,
        ap (λ (t : Tables). t.blobs) c,
      )

  -- In tables where the count of every blob is the number of the rows that name it, a deletion of a
  -- bucket takes the versions of the bucket and no others, and leaves each blob with a count that is
  -- too high by the versions of the bucket that named it.
  pub delete_bucket_leaks :
      IsBalanced db
      → (e : Bytes)
      → (b : Bucket) × (find (named name) buckets ≡ some b)
        × (s.1.versions ≡ keep (λ (v : ObjectVersion). not (bytes_eq v.bucket_id b.id)) db.versions)
        × (refcount e s.1.blobs
            ≡ references e s.1
              + weight
                  (version_ref e)
                  (keep (λ (v : ObjectVersion). bytes_eq v.bucket_id b.id) db.versions))
  unfolding cascade
  delete_bucket_leaks w e =
      let (b, f, o, u, c) = deleted_bucket in
      let (os, us, ps, bs) = delete_bucket_rows in
      (
        b,
        f,
        ap (λ (t : Tables). t.versions) c,
        rw (os, ps, bs, ap (λ (t : Tables). t.versions) c)
            (omega (
              arith,
              w e,
              weight-keep (version_ref e) (λ (v : ObjectVersion). bytes_eq v.bucket_id b.id)
                  db.versions,
            )),
      )
