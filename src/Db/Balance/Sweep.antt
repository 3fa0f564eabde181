-- ===== src/Db/Balance/Sweep.antt =====
-- blobs.go: the claim of one blob for collection, under the primary key of the table of blobs.
use infra_lightwight_s3_serv.Prelude.{
  ℕ, implies, ◌≤◌, ◌==◌, Bool, true, false, ◌&&◌, Bytes, List, [], ◌∷◌, bytes_eq, bytes_eq_iff,
  find, remove, any, weight, weight?, Option, none, some, ◌≡◌, ◌≢◌, refl, arith, err, Ensures,
  Option-cases, Bool-cases, inl, inr,
}
use infra_lightwight_s3_serv.Db.Rows.{
  MultipartPart, Tables, Object, Blob, foreign_key_violation, same_digest,
}
use infra_lightwight_s3_serv.Db.Blobs.{claim_and_unlink, is_referenced, has_digest}
use infra_lightwight_s3_serv.Db.Balance.{
  part_ref, tally, refcount, object_ref, version_ref, references, IsConsistent,
}

-- The primary key of the table of blobs.
abbrev pub Keyed : List Blob → Type 0
Keyed [] = Unit
Keyed (b ∷ bs) = (any (same_digest b.digest) bs ≡ false) × Keyed bs

abbrev garbage : Bytes → Blob → Bool
garbage d b = same_digest d b && b.refcount == 0

absent :
    (d e : Bytes) (bs : List Blob)
    → any (same_digest d) bs ≡ false
    → bytes_eq d e ≡ true
    → refcount e bs ≡ 0
unfolding refcount find
absent d e [] h k = refl
absent d e (b ∷ bs) h k =
    ground
      (arith, bytes_eq_iff b.digest d, bytes_eq_iff b.digest e, bytes_eq_iff d e, absent d e bs)

refcount-claim :
    (d e : Bytes) (bs : List Blob) → Keyed bs → refcount e (remove (garbage d) bs) ≡ refcount e bs
unfolding refcount find remove
refcount-claim d e [] k = refl
refcount-claim d e (b ∷ bs) k = ground (
  arith,
  absent b.digest e bs k.0,
  bytes_eq_iff b.digest d,
  bytes_eq_iff b.digest e,
  refcount-claim d e bs k.1,
)

no_garbage :
    (d e : Bytes) (bs : List Blob)
    → any (same_digest d) bs ≡ false
    → bytes_eq d e ≡ true
    → find (garbage e) bs ≡ none
unfolding find
no_garbage d e [] h k = refl
no_garbage d e (b ∷ bs) h k =
    ground
      (arith, bytes_eq_iff b.digest d, bytes_eq_iff b.digest e, bytes_eq_iff d e, no_garbage d e bs)

claimed_count :
    (d : Bytes) (bs : List Blob) (b : Blob)
    → Keyed bs
    → find (garbage d) bs ≡ some b
    → refcount d bs ≡ 0
unfolding refcount find
claimed_count d [] b k h = refl
claimed_count d (c ∷ bs) b k h = elim (Bool-cases (bytes_eq c.digest d)) [
  | inl e ↦ let gone = no_garbage c.digest d bs k.0 e in ground arith
  | inr e ↦ let rest = claimed_count d bs b k.1 in ground arith
]

weight_pos :
    {A : Type 0} (w : A → ℕ) (p : A → Bool) (xs : List A)
    → ((x : A) → p x ≡ true → 1 ≤ w x)
    → weight w xs ≡ 0
    → any p xs ≡ false
unfolding weight
weight_pos w p [] h z = refl
weight_pos w p (x ∷ xs) h z = elim (Bool-cases (p x)) [
  | inl e ↦ absurd (omega (arith, h x e))
  | inr e ↦ rw e (weight_pos w p xs h (omega arith))
]

object_counts : (d : Bytes) (o : Object) → bytes_eq o.blob_digest d ≡ true → 1 ≤ object_ref d o
unfolding tally
object_counts d o h = ground arith

version_counts :
    (d : Bytes) (o : Option Bytes) → has_digest d o ≡ true → 1 ≤ weight? (λ c. tally c d) o
unfolding tally has_digest
version_counts d none h = absurd (cc)
version_counts d (some c) h = ground arith

part_counts : (d : Bytes) (p : MultipartPart) → bytes_eq p.blob_digest d ≡ true → 1 ≤ part_ref d p
unfolding tally
part_counts d p h = ground arith

unreferenced : (d : Bytes) (db : Tables) → references d db ≡ 0 → is_referenced d db ≡ false
unfolding is_referenced
unreferenced d db z = rw (
  weight_pos (object_ref d) (λ o. bytes_eq o.blob_digest d) db.objects (object_counts d)
      (omega arith),
  weight_pos (version_ref d) (λ v. has_digest d v.blob_digest) db.versions
      (λ v. version_counts d v.blob_digest) (omega arith),
  weight_pos (part_ref d) (λ p. bytes_eq p.blob_digest d) db.parts (part_counts d) (omega arith),
)

-- Claiming one blob of consistent tables whose blobs have distinct digests: it is refused by no
-- foreign key, an unlinked file is that of a blob which no object, version or part names, and the
-- tables stay consistent.
pub claim_and_unlink_safe :
    (unlinks : Bytes → Bool) (d : Bytes) (db : Tables)
    → IsConsistent db
    → Keyed db.blobs
    → (claim_and_unlink unlinks d db ≢ err foreign_key_violation)
      × Ensures
          (λ r. (implies r.0 (references d db == 0) ≡ true) × IsConsistent r.1)
          (claim_and_unlink unlinks d db)
unfolding claim_and_unlink
claim_and_unlink_safe unlinks d db c k = elim (Option-cases (find (garbage d) db.blobs)) [
  | inl e ↦ rw (e, claim_and_unlink) ((λ h. cc), (refl, c))
  | inr (b, e) ↦
      let none_left : references d db ≡ 0 =
        omega (arith, c.balanced d, claimed_count d db.blobs b k e) in
      rw (e, claim_and_unlink)
        (rw (unreferenced d db none_left) (elim (Bool-cases (unlinks d)) [
          | inl u ↦ rw u (
            (λ h. cc),
            (
              rw none_left refl,
              record {
                balanced = λ x. omega (arith, c.balanced x, refcount-claim d x db.blobs k);
                distinct = c.distinct;
              },
            ),
          )
          | inr u ↦ rw u ((λ h. cc), tt)
        ]))
]
