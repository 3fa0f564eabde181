-- ===== src/Db/Blobs.antt =====
-- internal/db/blobs.go: reference counts of the content-addressed files, and their collection.
use infra_lightwight_s3_serv.Prelude.{
  ℕ, ◌+◌, ◌-◌, ◌==◌, ltb, Bool, true, false, ◌&&◌, Bytes, List, [], ◌∷◌, bytes_eq, find, remove,
  upsert, update, any, Option, none, some, Result, ok, err, if◌then◌else◌, keep, take, map,
}
use infra_lightwight_s3_serv.Db.Rows.{
  MultipartPart, Blob, Tables, Object, ObjectVersion, Error, foreign_key_violation, remove_failed,
  same_digest,
}

-- The lock only orders the transactions; the count is changed in the caller's.
unfoldable pub retain_blob : ℕ → Bytes → ℕ → List Blob → List Blob
retain_blob now digest size =
    upsert (same_digest digest)
      (record { digest = digest; size = size; refcount = 1; created_at = now })
      (λ b. record b { refcount = b.refcount + 1 })

unfoldable pub release_blob : Bytes → List Blob → List Blob
release_blob digest = update (same_digest digest) (λ b. record b { refcount = b.refcount - 1 })

-- The count that ReleaseBlob reports: 0 also where there is no row.
unfoldable pub remaining_after_release : Bytes → List Blob → ℕ
remaining_after_release digest bs = elim (find (same_digest digest) bs) [
  | none ↦ 0
  | some b ↦ b.refcount - 1
]

unfoldable pub has_digest : Bytes → Option Bytes → Bool
has_digest digest none = false
has_digest digest (some d) = bytes_eq d digest

-- The foreign keys onto blobs, ON DELETE RESTRICT.
unfoldable pub is_referenced : Bytes → Tables → Bool
unfolding has_digest
is_referenced digest db =
    if any (λ (o : Object). bytes_eq o.blob_digest digest) db.objects
    then true
    else if any (λ (v : ObjectVersion). has_digest digest v.blob_digest) db.versions
    then true
    else any (λ (p : MultipartPart). bytes_eq p.blob_digest digest) db.parts

-- DELETE FROM blobs WHERE digest = $1 AND refcount = 0.
unfoldable pub without_blob : Bytes → Tables → Tables
without_blob digest db = record db {
  blobs = remove (λ c. same_digest digest c && c.refcount == 0) db.blobs;
}

-- The transaction of claimAndUnlink: the row goes only if it is still unreferenced under the lock,
-- and only if its file is unlinked, which `unlinks` says of each digest. The result says whether the
-- blob was claimed.
unfoldable pub claim_and_unlink : (Bytes → Bool) → Bytes → Tables → Result Error (Bool × Tables)
unfolding is_referenced without_blob
claim_and_unlink unlinks digest db =
    elim (find (λ b. same_digest digest b && b.refcount == 0) db.blobs) [
      | none ↦ ok (false, db)
      | some b ↦
          if is_referenced digest db
          then err foreign_key_violation
          else if unlinks digest
          then ok (true, without_blob digest db)
          else err remove_failed
    ]

-- SELECT digest … WHERE refcount = 0 AND created_at < now() - grace ORDER BY created_at LIMIT.
unfoldable pub insert_by_age : Blob → List Blob → List Blob
insert_by_age b [] = b ∷ []
insert_by_age b (c ∷ cs) =
    if ltb c.created_at b.created_at then c ∷ insert_by_age b cs else b ∷ c ∷ cs

unfoldable pub by_age : List Blob → List Blob
by_age [] = []
by_age (b ∷ bs) = insert_by_age b (by_age bs)

unfoldable pub unreferenced_blobs : ℕ → ℕ → ℕ → List Blob → List Bytes
unfolding by_age insert_by_age
unreferenced_blobs now grace limit bs =
    map (λ b. b.digest)
      (take limit (by_age (keep (λ b. b.refcount == 0 && ltb (b.created_at + grace) now) bs)))

-- One round of the loop of SweepUnreferenced: a blob that fails is left for the next pass.
unfoldable pub sweep_one : Result Error (Bool × Tables) → ℕ × Tables → ℕ × Tables
sweep_one (ok (true, db')) (reclaimed, db) = (reclaimed + 1, db')
sweep_one (ok (false, db')) (reclaimed, db) = (reclaimed, db')
sweep_one (err e) (reclaimed, db) = (reclaimed, db)

unfoldable pub sweep_each : (Bytes → Bool) → List Bytes → ℕ × Tables → ℕ × Tables
unfolding claim_and_unlink sweep_one
sweep_each unlinks [] s = s
sweep_each unlinks (d ∷ ds) s = sweep_each unlinks ds (sweep_one (claim_and_unlink unlinks d s.1) s)

unfoldable pub sweep_unreferenced : (Bytes → Bool) → ℕ → ℕ → ℕ → Tables → ℕ × Tables
unfolding unreferenced_blobs sweep_each
sweep_unreferenced unlinks now grace limit db =
    sweep_each unlinks (unreferenced_blobs now grace limit db.blobs) (0, db)
