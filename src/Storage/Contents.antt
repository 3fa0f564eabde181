-- ===== src/Storage/Contents.antt =====
-- internal/storage/blobstore.go: each file holds the bytes of its digest.
use infra_lightwight_s3_serv.Prelude.{
  ltb, true, false, Bytes, List, [], ◌∷◌, bytes_eq, bytes_eq_iff, bytes_eq_refl, find, find_passes,
  find_mem, hex_decode, hex_decode-hex_encode, Memᴰ, head, tail, not-nil, all, length, hex_encode,
  length-hex_encode, hex_encode-all, none, ok, >>=-ok, ◌≡◌, refl, arith, Bool-cases, Option-cases,
  inl, inr, sym, ap, ◌∙◌, subst, ok-injective,
}
use infra_lightwight_s3_serv.Storage.{
  Files, StoredBlob, at_digest, valid_digest, open_blob, digest_of, commit, put_blob, open_all,
  concat,
}

-- Every file has the name of its bytes.
abbrev pub IsAddressed : (Bytes → Bytes) → Files → Type 0
IsAddressed sha256 [] = Unit
IsAddressed sha256 ((name, bytes) ∷ fs) = (name ≡ hex_encode (sha256 bytes)) × IsAddressed sha256 fs

IsAddressed-mem :
    (sha256 : Bytes → Bytes) (files : Files) (f : Bytes × Bytes)
    → IsAddressed sha256 files
    → Memᴰ f files
    → f.0 ≡ hex_encode (sha256 f.1)
IsAddressed-mem sha256 [] f a m = absurd (not-nil m)
IsAddressed-mem sha256 ((n, b) ∷ fs) f a (head e) =
    subst (λ (g : Bytes × Bytes). g.0 ≡ hex_encode (sha256 g.1)) (sym e) a.0
IsAddressed-mem sha256 ((n, b) ∷ fs) f a (tail m) = IsAddressed-mem sha256 fs f a.1 m

hex_encode-injective :
    (x y : Bytes)
    → all (λ c. ltb c 256) x ≡ true
    → all (λ c. ltb c 256) y ≡ true
    → hex_encode x ≡ hex_encode y
    → x ≡ y
hex_encode-injective x y h k e =
    cc (hex_decode-hex_encode x h, hex_decode-hex_encode y k, ap hex_decode e)

told_digest :
    (sha256 md5 : Bytes → Bytes) (bytes known : Bytes)
    → (bytes_eq known [] ≡ false → known ≡ hex_encode (sha256 bytes))
    → digest_of sha256 md5 bytes known ≡ hex_encode (sha256 bytes)
unfolding digest_of
told_digest sha256 md5 bytes known k = elim (Bool-cases (bytes_eq known [])) [
  | inl e ↦ rw e refl
  | inr e ↦ rw e (k e)
]

module _ (sha256 md5 : Bytes → Bytes) (sized : (x : Bytes) → length (sha256 x) ≡ 32)
    (octets : (x : Bytes) → all (λ c. ltb c 256) (sha256 x) ≡ true) where
  hash_valid : (x : Bytes) → valid_digest (hex_encode (sha256 x)) ≡ true
  unfolding valid_digest
  hash_valid x =
      ground (arith, length-hex_encode (sha256 x), sized x, hex_encode-all (sha256 x) (octets x))

  commit-open_blob :
      (digest bytes : Bytes) (files : Files)
      → digest ≡ hex_encode (sha256 bytes)
      → IsAddressed sha256 files
      → ((f : Bytes × Bytes) → Memᴰ f files → sha256 f.1 ≡ sha256 bytes → f.1 ≡ bytes)
      → open_blob digest (commit sha256 md5 digest bytes files) ≡ ok bytes
  unfolding open_blob commit find
  commit-open_blob digest bytes files d a h =
      let valid : valid_digest digest ≡ true = ap valid_digest d ∙ hash_valid bytes in
      elim (Option-cases (find (at_digest digest) files)) [
        | inl e ↦ rw (valid, e, bytes_eq_refl digest) refl
        | inr (f, e) ↦
            let m = find_mem (at_digest digest) files f e in
            let named : f.0 ≡ digest =
              (bytes_eq_iff f.0 digest).0 (find_passes (at_digest digest) files f e) in
            let hashed =
              hex_encode-injective (sha256 f.1) (sha256 bytes) (octets f.1) (octets bytes)
                (sym (IsAddressed-mem sha256 files f a m) ∙ named ∙ d) in
            rw (valid, e, e) (ap ok (h f m hashed))
      ]

  -- Bytes that were put are read back under the digest that Put returns, whether Put hashes them or
  -- is told their hash. This is for files that stand each under the hash of its bytes, none of which
  -- has other bytes with the same hash; and a digest that Put is told is the hash of the bytes.
  pub put_blob-open_blob :
      (bytes known : Bytes) (files : Files)
      → (bytes_eq known [] ≡ false → known ≡ hex_encode (sha256 bytes))
      → IsAddressed sha256 files
      → ((f : Bytes × Bytes) → Memᴰ f files → sha256 f.1 ≡ sha256 bytes → f.1 ≡ bytes)
      → open_blob
          (put_blob sha256 md5 bytes known files).0.digest
          (put_blob sha256 md5 bytes known files).1
        ≡ ok bytes
  unfolding put_blob
  put_blob-open_blob bytes known files k a h =
      commit-open_blob (digest_of sha256 md5 bytes known) bytes files
        (told_digest sha256 md5 bytes known k) a h

-- Put keeps the files addressed, whether it hashes the bytes or is told their hash.
pub put_blob-IsAddressed :
    (sha256 md5 : Bytes → Bytes) (bytes known : Bytes) (files : Files)
    → (bytes_eq known [] ≡ false → known ≡ hex_encode (sha256 bytes))
    → IsAddressed sha256 files
    → IsAddressed sha256 (put_blob sha256 md5 bytes known files).1
unfolding put_blob
put_blob-IsAddressed sha256 md5 bytes known files k a =
    elim (Option-cases (find (at_digest (digest_of sha256 md5 bytes known)) files)) [
      | inr (f, e) ↦ rw (e, commit) a
      | inl e ↦ rw (e, commit) (told_digest sha256 md5 bytes known k, a)
    ]

-- Put leaves what could be read before.
pub put_blob_keeps :
    (sha256 md5 : Bytes → Bytes) (bytes known digest old : Bytes) (files : Files)
    → open_blob digest files ≡ ok old
    → open_blob digest (put_blob sha256 md5 bytes known files).1 ≡ ok old
unfolding put_blob commit open_blob find
put_blob_keeps sha256 md5 bytes known digest old files h =
    elim (Option-cases (find (at_digest (digest_of sha256 md5 bytes known)) files)) [
      | inr (f, e) ↦ rw (e, commit) h
      | inl e ↦ elim (Bool-cases (bytes_eq (digest_of sha256 md5 bytes known) digest)) [
        | inr n ↦ rw (e, n, commit) h
        | inl n ↦
            let same = (bytes_eq_iff (digest_of sha256 md5 bytes known) digest).0 n in
            absurd (missing (subst (λ d. find (at_digest d) files ≡ none) same e))
      ]
    ]
  where
    missing : find (at_digest digest) files ≡ none → ⊥
    missing e = elim (Bool-cases (valid_digest digest)) [
      | inl v ↦ absurd (cc (rw (v, e) at h))
      | inr v ↦ absurd (cc (rw v at h))
    ]

pub unknown : bytes_eq [] [] ≡ false → ⊥
unfolding bytes_eq
unknown h = cc h

module _ (sha256 md5 : Bytes → Bytes) (sized : (x : Bytes) → length (sha256 x) ≡ 32)
    (octets : (x : Bytes) → all (λ c. ltb c 256) (sha256 x) ≡ true) where
  -- Concat that succeeds found every part, and the blob that it returns is read back as the parts'
  -- bytes one after another, with their number as its size, where no other file has bytes with the
  -- same hash.
  pub concat-open_blob :
      (digests : List Bytes) (files files' : Files) (blob : StoredBlob)
      → IsAddressed sha256 files
      → ((bytes : Bytes) (f : Bytes × Bytes)
          → open_all sha256 md5 digests files ≡ ok bytes
          → Memᴰ f files
          → sha256 f.1 ≡ sha256 bytes
          → f.1 ≡ bytes)
      → concat sha256 md5 digests files ≡ ok (blob, files')
      → (bytes : Bytes) × (open_all sha256 md5 digests files ≡ ok bytes)
        × (open_blob blob.digest files' ≡ ok bytes)
        × (blob.size ≡ length bytes)
        × (blob.digest ≡ hex_encode (sha256 bytes))
  unfolding concat put_blob digest_of bytes_eq
  concat-open_blob digests files files' blob a apart h =
      let (bytes, e, k) =
        >>=-ok (open_all sha256 md5 digests files)
          (λ bytes. ok (put_blob sha256 md5 bytes [] files)) h in
      let stored = ok-injective k in
      (
        bytes,
        e,
        subst (λ (r : StoredBlob × Files). open_blob r.0.digest r.1 ≡ ok bytes) stored
            (put_blob-open_blob sha256 md5 sized octets bytes [] files (λ n. absurd (unknown n)) a
              (λ f m c. apart bytes f e m c)),
        ap (λ (r : StoredBlob × Files). r.0.size) (sym stored),
        ap (λ (r : StoredBlob × Files). r.0.digest) (sym stored),
      )
