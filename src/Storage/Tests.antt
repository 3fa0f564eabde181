-- ===== src/Storage/Tests.antt =====
-- The theorems on the files of the blobs, with a hash that keeps the first bytes.
use infra_lightwight_s3_serv.Prelude.{
  ℕ, zero, suc, ◌%◌, ◌==◌, ltb, true, Bytes, List, [], ◌∷◌, ◌++◌, all, all-append, length,
  hex_encode, hex_char, is_lower_hex, bytes_eq, find, ok, ◌>>=◌, >>=-ok, ok-injective, ◌≡◌, refl,
  arith, Memᴰ, head, tail, not-nil, subst, sym, ap, Bool-cases, inl, inr,
}
use infra_lightwight_s3_serv.Storage.{Files, valid_digest, open_blob, put_blob, open_all, concat}
use infra_lightwight_s3_serv.Storage.Contents.{
  IsAddressed, put_blob-open_blob, put_blob-IsAddressed, concat-open_blob, unknown,
}

-- Thirty-two bytes.
unfoldable pub padded : ℕ → Bytes → Bytes
padded zero s = []
padded (suc n) [] = 0 ∷ padded n []
padded (suc n) (c ∷ s) = (c % 256) ∷ padded n s

length-padded : (n : ℕ) (s : Bytes) → length (padded n s) ≡ n
unfolding padded
length-padded zero s = refl
length-padded (suc n) [] = ap suc (length-padded n [])
length-padded (suc n) (c ∷ s) = ap suc (length-padded n s)

padded-all : (n : ℕ) (s : Bytes) → all (λ c. ltb c 256) (padded n s) ≡ true
unfolding padded
padded-all zero s = refl
padded-all (suc n) [] = padded-all n []
padded-all (suc n) (c ∷ s) = ground (arith, padded-all n s)

abbrev pub hash32 : Bytes → Bytes
hash32 s = padded 32 s

pub hash32_sized : (s : Bytes) → length (hash32 s) ≡ 32
hash32_sized s = length-padded 32 s

pub hash32_octets : (s : Bytes) → all (λ c. ltb c 256) (hash32 s) ≡ true
hash32_octets s = padded-all 32 s

-- One file, of the byte 97.
abbrev pub stored_a : Files
stored_a = (hex_encode (hash32 (97 ∷ [])), 97 ∷ []) ∷ []

pub stored_a-IsAddressed : IsAddressed hash32 stored_a
stored_a-IsAddressed = (refl, tt)

open_a :
    (digest bytes : Bytes) → open_blob digest stored_a ≡ ok bytes → all (λ c. c == 97) bytes ≡ true
unfolding open_blob find
open_a digest bytes h = elim (Bool-cases (valid_digest digest)) [
  | inr e ↦ absurd (cc (rw e at h))
  | inl e ↦ elim (Bool-cases (bytes_eq (hex_encode (hash32 (97 ∷ []))) digest)) [
    | inl k ↦ subst (λ b. all (λ c. c == 97) b ≡ true) (ok-injective (rw (e, k) at h)) refl
    | inr k ↦ absurd (cc (rw (e, k) at h))
  ]
]

open_all_a :
    (digests : List Bytes) (bytes : Bytes)
    → open_all hash32 hash32 digests stored_a ≡ ok bytes
    → all (λ c. c == 97) bytes ≡ true
unfolding open_all
open_all_a [] bytes h = subst (λ b. all (λ c. c == 97) b ≡ true) (ok-injective h) refl
open_all_a (d ∷ ds) bytes h =
    let (b, e, k) =
      >>=-ok (open_blob d stored_a)
        (λ b. open_all hash32 hash32 ds stored_a >>= λ rest. ok (b ++ rest)) h in
    let (bs, f, j) = >>=-ok (open_all hash32 hash32 ds stored_a) (λ rest. ok (b ++ rest)) k in
    subst (λ x. all (λ c. c == 97) x ≡ true) (ok-injective j)
      (ground (arith, all-append (λ c. c == 97) b bs, open_a d b e, open_all_a ds bs f))

-- Of the strings of that byte only one has the hash of the file.
one_a :
    (bytes : Bytes)
    → all (λ c. c == 97) bytes ≡ true
    → hash32 (97 ∷ []) ≡ hash32 bytes
    → (97 ∷ []) ≡ bytes
unfolding padded
one_a [] a e = absurd (cc)
one_a (x ∷ []) a e = ground arith
one_a (x ∷ y ∷ s) a e = absurd (ground arith)

pub apart_a :
    (digests : List Bytes) (bytes : Bytes) (f : Bytes × Bytes)
    → open_all hash32 hash32 digests stored_a ≡ ok bytes
    → Memᴰ f stored_a
    → hash32 f.1 ≡ hash32 bytes
    → f.1 ≡ bytes
apart_a digests bytes f h (head e) k =
    subst (λ (g : Bytes × Bytes). hash32 g.1 ≡ hash32 bytes → g.1 ≡ bytes) (sym e)
      (one_a bytes (open_all_a digests bytes h)) k
apart_a digests bytes f h (tail m) k = absurd (not-nil m)

apart_ab :
    (f : Bytes × Bytes) → Memᴰ f stored_a → hash32 f.1 ≡ hash32 (97 ∷ 98 ∷ []) → f.1 ≡ 97 ∷ 98 ∷ []
unfolding padded
apart_ab f (head e) k =
    absurd (cc (subst (λ (g : Bytes × Bytes). hash32 g.1 ≡ hash32 (97 ∷ 98 ∷ [])) e k))
apart_ab f (tail m) k = absurd (not-nil m)

abbrev name_ab : Bytes
name_ab = hex_encode (hash32 (97 ∷ 98 ∷ []))

put_blob-open_blob_example :
    open_blob
      (put_blob hash32 hash32 (97 ∷ 98 ∷ []) name_ab stored_a).0.digest
      (put_blob hash32 hash32 (97 ∷ 98 ∷ []) name_ab stored_a).1
    ≡ ok (97 ∷ 98 ∷ [])
put_blob-open_blob_example =
    put_blob-open_blob hash32 hash32 hash32_sized hash32_octets (97 ∷ 98 ∷ []) name_ab stored_a
      (λ h. refl) stored_a-IsAddressed apart_ab

put_blob-IsAddressed_example :
    IsAddressed hash32 (put_blob hash32 hash32 (97 ∷ 98 ∷ []) [] stored_a).1
put_blob-IsAddressed_example =
    put_blob-IsAddressed hash32 hash32 (97 ∷ 98 ∷ []) [] stored_a (λ h. absurd (unknown h))
      stored_a-IsAddressed

abbrev pub name_a : Bytes
name_a = hex_encode (hash32 (97 ∷ []))

joined_twice : open_all hash32 hash32 (name_a ∷ name_a ∷ []) stored_a ≡ ok (97 ∷ 97 ∷ [])
unfolding open_all open_blob valid_digest find padded hex_encode hex_char bytes_eq is_lower_hex
joined_twice = refl

concatenated :
    concat hash32 hash32 (name_a ∷ name_a ∷ []) stored_a
    ≡ ok (put_blob hash32 hash32 (97 ∷ 97 ∷ []) [] stored_a)
unfolding concat
concatenated = rw joined_twice refl

concat-open_blob_example :
    (bytes : Bytes) × (open_all hash32 hash32 (name_a ∷ name_a ∷ []) stored_a ≡ ok bytes)
    × (open_blob
          (put_blob hash32 hash32 (97 ∷ 97 ∷ []) [] stored_a).0.digest
          (put_blob hash32 hash32 (97 ∷ 97 ∷ []) [] stored_a).1
        ≡ ok bytes)
    × ((put_blob hash32 hash32 (97 ∷ 97 ∷ []) [] stored_a).0.size ≡ length bytes)
    × ((put_blob hash32 hash32 (97 ∷ 97 ∷ []) [] stored_a).0.digest ≡ hex_encode (hash32 bytes))
concat-open_blob_example =
    concat-open_blob hash32 hash32 hash32_sized hash32_octets (name_a ∷ name_a ∷ []) stored_a
      (put_blob hash32 hash32 (97 ∷ 97 ∷ []) [] stored_a).1
      (put_blob hash32 hash32 (97 ∷ 97 ∷ []) [] stored_a).0 stored_a-IsAddressed
      (λ bytes f h m k. apart_a (name_a ∷ name_a ∷ []) bytes f h m k) concatenated
