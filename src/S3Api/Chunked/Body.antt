-- ===== src/S3Api/Chunked/Body.antt =====
-- internal/s3api/chunked.go: a whole body, read with buffers of any size.
use infra_lightwight_s3_serv.Prelude.{
  ℕ, suc, ◌≤◌, ◌<◌, Bool, true, false, Bytes, List, [], ◌∷◌, ◌++◌, length, length-append,
  append_assoc, Option, none, some, ◌≡◌, refl, arith, ◌⊎◌, inl, inr, sym, ap, ◌∙◌,
}
use infra_lightwight_s3_serv.S3Api.Signature.{Hashes}
use infra_lightwight_s3_serv.S3Api.Chunked.{
  Reader, ReadError, eof, Answer, read, prepend, read_body,
}
use infra_lightwight_s3_serv.S3Api.Chunked.Framing.{Frames}
use infra_lightwight_s3_serv.S3Api.Chunked.Delivery.{
  joined, Holds, between, Holds-error, Delivers, read_lem,
}

-- Buffers that are not empty, and reads of the source that return something.
abbrev pub AllPositive : List (ℕ × ℕ) → Type 0
AllPositive [] = Unit
AllPositive ((len, ready) ∷ calls) = (1 ≤ len) × (1 ≤ ready) × AllPositive calls

-- A reader that has read nothing.
abbrev pub IsFresh : Reader → Type 0
IsFresh c =
    (c.pending ≡ [])
    × (c.remaining ≡ 0)
    × (c.finished ≡ false)
    × (c.error ≡ none)
    × (c.at_chunk_end ≡ false)

-- The body was read to its end, or each read returned something of it.
abbrev Read : ℕ → Bytes → Option (Bytes × Option ReadError) → Type 0
Read calls left none = ⊥
Read calls left (some (out, some e)) = (e ≡ eof) × (out ≡ left)
Read calls left (some (out, none)) = (rest : Bytes) × (left ≡ out ++ rest) × (calls ≤ length out)

Read-prepend :
    (n : ℕ) (out left rest : Bytes) (r : Option (Bytes × Option ReadError))
    → left ≡ out ++ rest
    → 1 ≤ length out
    → Read n rest r
    → Read (suc n) left (prepend out r)
unfolding prepend
Read-prepend n out left rest none e l k = k
Read-prepend n out left rest (some (bytes, some x)) e l (k, j) = (k, ap (◌++◌ out) j ∙ sym e)
Read-prepend n out left rest (some (bytes, none)) e l (more, j, m) = (
  more,
  e ∙ ap (◌++◌ out) j ∙ sym (append_assoc out bytes more),
  omega (arith, length-append out bytes),
)

module _ (h : Hashes) (is_cut : Bool) where
  Read-answer :
      (n : ℕ) (calls : List (ℕ × ℕ)) (left : Bytes) (answer : Option Answer)
      → ((c : Reader) (rest : Bytes) → Holds h is_cut c rest → Read n rest (read_body h calls c))
      → Delivers h is_cut left answer
      → Read (suc n) left (elim answer [
        | none ↦ none
        | some (c', out, e) ↦ elim e [
          | some e' ↦ some (out, some e')
          | none ↦ prepend out (read_body h calls c')
        ]
      ])
  Read-answer n calls left none rest k = k
  Read-answer n calls left (some (c, out, some e)) rest (k, o, l) = (k, o ∙ sym l)
  Read-answer n calls left (some (c, out, none)) rest (more, e, l, holds) =
      Read-prepend n out left more (read_body h calls c) e l (rest c more holds)

  read_body-Read :
      (calls : List (ℕ × ℕ)) (c : Reader) (left : Bytes)
      → AllPositive calls
      → Holds h is_cut c left
      → Read (length calls) left (read_body h calls c)
  unfolding read_body
  read_body-Read [] c left a holds = (left, refl, omega arith)
  read_body-Read ((len, ready) ∷ calls) c left (l, m, a) holds =
      Read-answer (length calls) calls left (read h len ready c)
        (λ c' rest k. read_body-Read calls c' rest a k)
        (read_lem h is_cut len ready l m c left (Holds-error h is_cut c left holds) holds)

outcome :
    (n : ℕ) (left : Bytes) (r : Option (Bytes × Option ReadError))
    → Read n left r
    → (out : Bytes) × (e : Option ReadError) × (r ≡ some (out, e))
      × (((e ≡ some eof) × (out ≡ left))
          ⊎ ((e ≡ none) × (rest : Bytes) × (left ≡ out ++ rest) × (n ≤ length out)))
outcome n left none k = absurd k
outcome n left (some (out, some e)) (k, o) = (out, some e, refl, inl (ap some k, o))
outcome n left (some (out, none)) (rest, e, l) = (out, none, refl, inr (refl, rest, e, l))

to_end :
    (n : ℕ) (left : Bytes) (r : Option (Bytes × Option ReadError))
    → length left < n
    → Read n left r
    → r ≡ some (left, some eof)
to_end n left none l k = absurd k
to_end n left (some (out, some e)) l (k, o) = rw (k, o) refl
to_end n left (some (out, none)) l (rest, e, m) =
    absurd (omega (arith, ap length e, length-append out rest))

-- A body in chunks is delivered as their data, one after another, whatever the buffers and the reads
-- of the source: the reads either reach the end, with EOF and all of the data, or each of them has
-- returned some of it. In a signed body the header of each chunk has the signature of the chain.
pub read_body_lem :
    (h : Hashes) (c : Reader) (ds : List Bytes) (calls : List (ℕ × ℕ))
    → IsFresh c
    → Frames h false ds c
    → AllPositive calls
    → (out : Bytes) × (e : Option ReadError) × (read_body h calls c ≡ some (out, e))
      × (((e ≡ some eof) × (out ≡ joined ds))
          ⊎ ((e ≡ none) × (rest : Bytes) × (joined ds ≡ out ++ rest) × (length calls ≤ length out)))
read_body_lem h c ds calls (p, r, f, g, a) frames positive =
    outcome (length calls) (joined ds) (read_body h calls c) (
      read_body-Read h false calls c (joined ds) positive (between ds (p, r, f, g, a, frames) refl))

-- A body that ends before its final chunk, after any of the others, is taken for whole, signed or
-- not: enough reads end with EOF and the data of the chunks that are there.
pub read_body-cut :
    (h : Hashes) (c : Reader) (ds : List Bytes) (calls : List (ℕ × ℕ))
    → IsFresh c
    → Frames h true ds c
    → AllPositive calls
    → length (joined ds) < length calls
    → read_body h calls c ≡ some (joined ds, some eof)
read_body-cut h c ds calls (p, r, f, g, a) frames positive enough =
    to_end (length calls) (joined ds) (read_body h calls c) enough
      (read_body-Read h true calls c (joined ds) positive (between ds (p, r, f, g, a, frames) refl))
