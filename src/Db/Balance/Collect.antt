-- ===== src/Db/Balance/Collect.antt =====
-- blobs.go: a whole pass of SweepUnreferenced.
use infra_lightwight_s3_serv.Prelude.{
  ℕ, ◌==◌, Bool, true, false, ◌&&◌, Bytes, List, [], ◌∷◌, find, remove, any-remove, if◌then◌else◌,
  ◌≡◌, refl, ◌∙◌, Result, ok, err, Ensures, Ensures-map, Ensures-if, Option-cases, Bool-cases, inl,
  inr,
}
use infra_lightwight_s3_serv.Db.Rows.{
  Tables, Blob, Error, foreign_key_violation, remove_failed, same_digest,
}
use infra_lightwight_s3_serv.Db.Blobs.{
  claim_and_unlink, is_referenced, without_blob, sweep_one, sweep_each, sweep_unreferenced,
  unreferenced_blobs,
}
use infra_lightwight_s3_serv.Db.Balance.{IsConsistent}
use infra_lightwight_s3_serv.Db.Balance.Sweep.{Keyed, claim_and_unlink_safe}

Keyed-remove : (p : Blob → Bool) (bs : List Blob) → Keyed bs → Keyed (remove p bs)
unfolding remove
Keyed-remove p [] k = tt
Keyed-remove p (b ∷ bs) k = elim (Bool-cases (p b)) [
  | inl e ↦ rw e k.1
  | inr e ↦ rw e (any-remove (same_digest b.digest) p bs k.0, Keyed-remove p bs k.1)
]

-- The rows of objects, versions and parts are as they were, and the books are in order.
abbrev pub Swept : Tables → Tables → Type 0
Swept db t =
    IsConsistent t
    × Keyed t.blobs
    × (t.objects ≡ db.objects)
    × (t.versions ≡ db.versions)
    × (t.parts ≡ db.parts)

abbrev Rows : Tables → Bool × Tables → Type 0
Rows db r =
    Keyed r.1.blobs
    × (r.1.objects ≡ db.objects)
    × (r.1.versions ≡ db.versions)
    × (r.1.parts ≡ db.parts)

claimed-Rows :
    (unlinks : Bytes → Bool) (d : Bytes) (db : Tables)
    → Keyed db.blobs
    → Ensures (Rows db) (claim_and_unlink unlinks d db)
unfolding claim_and_unlink without_blob
claimed-Rows unlinks d db k =
    elim (Option-cases (find (λ b. same_digest d b && b.refcount == 0) db.blobs)) [
      | inl e ↦ rw (e, claim_and_unlink) (k, refl, refl, refl)
      | inr (b, e) ↦
          rw (e, claim_and_unlink)
            (Ensures-if {E = Error} (Rows db) (is_referenced d db) (err foreign_key_violation)
              (if unlinks d then ok (true, without_blob d db) else err remove_failed) (λ _. tt)
              (λ _.
                Ensures-if {E = Error} (Rows db) (unlinks d) (ok (true, without_blob d db))
                  (err remove_failed)
                  (λ _. (
                    Keyed-remove (λ c. same_digest d c && c.refcount == 0) db.blobs k,
                    refl,
                    refl,
                    refl,
                  ))
                  (λ _. tt)))
    ]

sweep_one-Swept :
    (db : Tables) (m : Result Error (Bool × Tables)) (s : ℕ × Tables)
    → Swept db s.1
    → Ensures (λ r. IsConsistent r.1) m
    → Ensures (Rows s.1) m
    → Swept db (sweep_one m s).1
unfolding sweep_one
sweep_one-Swept db (ok (true, t)) (n, u) (c, k, o, v, w) h (l, p, q, r) =
    (h, l, p ∙ o, q ∙ v, r ∙ w)
sweep_one-Swept db (ok (false, t)) (n, u) (c, k, o, v, w) h (l, p, q, r) =
    (h, l, p ∙ o, q ∙ v, r ∙ w)
sweep_one-Swept db (err e) (n, u) w h r = w

claimed-IsConsistent :
    (unlinks : Bytes → Bool) (d : Bytes) (db : Tables)
    → IsConsistent db
    → Keyed db.blobs
    → Ensures (λ r. IsConsistent r.1) (claim_and_unlink unlinks d db)
claimed-IsConsistent unlinks d db c k =
    Ensures-map _ (λ r. IsConsistent r.1) (claim_and_unlink unlinks d db) (λ r h. h.1)
      ((claim_and_unlink_safe unlinks d db c k).1)

sweep_each-Swept :
    (unlinks : Bytes → Bool) (ds : List Bytes) (db : Tables) (s : ℕ × Tables)
    → Swept db s.1
    → Swept db (sweep_each unlinks ds s).1
unfolding sweep_each
sweep_each-Swept unlinks [] db s w = w
sweep_each-Swept unlinks (d ∷ ds) db s w =
    sweep_each-Swept unlinks ds db (sweep_one (claim_and_unlink unlinks d s.1) s) (
      sweep_one-Swept db (claim_and_unlink unlinks d s.1) s w
        (claimed-IsConsistent unlinks d s.1 w.0 w.1) (claimed-Rows unlinks d s.1 w.1))

-- A whole sweep of consistent tables, whichever files can be unlinked, leaves the objects, the
-- versions and the parts as they were, every count of a blob equal to the number of rows that name it, and the
-- digests of the table of blobs distinct.
pub sweep_unreferenced-Swept :
    (unlinks : Bytes → Bool) (now grace limit : ℕ) (db : Tables)
    → IsConsistent db
    → Keyed db.blobs
    → Swept db (sweep_unreferenced unlinks now grace limit db).1
unfolding sweep_unreferenced
sweep_unreferenced-Swept unlinks now grace limit db c k =
    sweep_each-Swept unlinks (unreferenced_blobs now grace limit db.blobs) db (0, db)
      (c, k, refl, refl, refl)
