-- ===== src/S3Api/Chunked/Framing.antt =====
-- internal/s3api/chunked.go: a body in chunks, and what the reader makes of the header of a chunk.
use infra_lightwight_s3_serv.Prelude.{
  ℕ, ◌+◌, ◌≤◌, ◌==◌, ltb, Bool, true, false, ◌||◌, Bytes, List, [], ◌∷◌, ◌++◌, reverse, bytes_eq,
  bytes_eq_refl, any, any-append, length, length-append, take-append, drop-append, cut, ok, err,
  ◌≡◌, refl, arith, Bool-cases, inl, inr, ap, ◌∙◌,
}
use mathlib.Core.List.{reverse-append, reverse-reverse}
use infra_lightwight_s3_serv.S3Api.Signature.{Hashes, sign}
use infra_lightwight_s3_serv.S3Api.Chunked.{
  Reader, eof, max_chunk_header_size, read_string, trim_end, trim_right_crlf, read_line, size_of,
  signature_from, read_full, consume_trailers, chunk_string, verify_chunk, take_chunk, close_chunk,
  next_chunk,
}

abbrev pub crlf : Bytes
crlf = 13 ∷ 10 ∷ []

-- A line that can be the header of a chunk.
abbrev pub IsLine : Bytes → Type 0
IsLine line =
    (any (λ c. c == 13 || c == 10) line ≡ false) × (length line + 2 ≤ max_chunk_header_size)

read_string_line :
    (line rest : Bytes)
    → any (λ c. c == 13 || c == 10) line ≡ false
    → read_string (line ++ (13 ∷ 10 ∷ rest)) ≡ (line ++ crlf, rest)
unfolding read_string
read_string_line [] rest h = refl
read_string_line (c ∷ line) rest h =
    let e : (c == 10) ≡ false = ground arith in
    rw (read_string_line line rest (ground arith), e) refl

trim_end_stop : (c : ℕ) (s : Bytes) → (c == 13 || c == 10) ≡ false → trim_end (c ∷ s) ≡ c ∷ s
unfolding trim_end
trim_end_stop c s h = rw h refl

-- No trailing line break.
trim_end_none : (s : Bytes) → any (λ c. c == 13 || c == 10) s ≡ false → trim_end s ≡ s
unfolding trim_end
trim_end_none [] h = refl
trim_end_none (c ∷ s) h = trim_end_stop c s (ground arith)

any-reverse : (p : ℕ → Bool) (s : Bytes) → any p (reverse s) ≡ any p s
any-reverse p [] = refl
any-reverse p (c ∷ s) =
    ap (any p) (reverse-append (c ∷ []) s)
    ∙ any-append p (reverse s) (c ∷ [])
    ∙ ground (arith, any-reverse p s)

trim_right_crlf_line :
    (line : Bytes)
    → any (λ c. c == 13 || c == 10) line ≡ false
    → trim_right_crlf (line ++ crlf) ≡ line
unfolding trim_right_crlf trim_end
trim_right_crlf_line line h = rw (reverse-append line crlf) (
    ap reverse (trim_end_none (reverse line) (any-reverse (λ c. c == 13 || c == 10) line ∙ h))
    ∙ reverse-reverse line)

not_empty : (line : Bytes) → bytes_eq (line ++ crlf) [] ≡ false
unfolding bytes_eq
not_empty [] = refl
not_empty (c ∷ line) = refl

pub read_line_lem :
    (line rest : Bytes) → IsLine line → read_line (line ++ (13 ∷ 10 ∷ rest)) ≡ ok (line, rest)
unfolding read_line
read_line_lem line rest (h, k) =
    let short : ltb max_chunk_header_size (length (line ++ crlf)) ≡ false =
      ground (arith, length-append line crlf) in
    rw (read_string_line line rest h, not_empty line, short, trim_right_crlf_line line h) refl

module _ (h : Hashes) where
  -- The header of a chunk: its size, and in a signed body the signature that the chain wants.
  abbrev pub IsHeader : Reader → Bytes → Bytes → Bytes → Type 0
  IsHeader c line bytes signature =
      (size_of (cut b';' line).0 ≡ ok (length bytes))
      × (c.verify ≡ true
          → (signature_from (cut b';' line).1 ≡ ok signature)
            × (sign h c.signing_key (chunk_string h c bytes) ≡ signature))

  -- The signature that the next one is chained to.
  abbrev pub chained : Bool → Reader → Bytes → Bytes
  chained true c signature = signature
  chained false c signature = c.prev_signature

  -- The reader at the header of the next chunk.
  abbrev pub moved : Reader → Bytes → Bytes → Reader
  moved c signature rest = record c {
    src = rest;
    prev_signature = chained c.verify c signature;
    pending = [];
    remaining = 0;
    at_chunk_end = false;
  }

  -- A body of chunks that hold the data. It is cut where the final chunk is missing.
  abbrev pub Frames : Bool → List Bytes → Reader → Type 0
  Frames true [] c = c.src ≡ []
  Frames false [] c =
      (line : Bytes) × (signature : Bytes) × (trailers : Bytes) × (rest : Bytes) × IsLine line
      × IsHeader c line [] signature
      × (c.src ≡ line ++ (13 ∷ 10 ∷ trailers))
      × (consume_trailers trailers ≡ ok rest)
  Frames is_cut (bytes ∷ more) c =
      (line : Bytes) × (signature : Bytes) × (rest : Bytes) × IsLine line
      × IsHeader c line bytes signature
      × (c.src ≡ line ++ (13 ∷ 10 ∷ (bytes ++ (13 ∷ 10 ∷ rest))))
      × (1 ≤ length bytes)
      × Frames is_cut more (moved c signature rest)

  pub read_full_lem :
      (bytes rest : Bytes) → read_full (length bytes) (bytes ++ rest) ≡ ok (bytes, rest)
  unfolding read_full
  read_full_lem bytes rest =
      let enough : ltb (length (bytes ++ rest)) (length bytes) ≡ false =
        ground (arith, length-append bytes rest) in
      rw (enough, take-append bytes rest, drop-append bytes rest) refl

  -- What the reader holds after the header of a chunk, whose data is buffered or left in the source.
  abbrev pub in_chunk : Bool → Reader → Bytes → Bytes → Bytes → Reader
  in_chunk true c signature bytes rest = record c {
    src = rest;
    prev_signature = signature;
    pending = bytes;
  }
  in_chunk false c signature bytes rest = record c { src = bytes ++ rest; remaining = length bytes }

  take_chunk_lem :
      (c : Reader) (line bytes signature rest : Bytes)
      → IsHeader c line bytes signature
      → take_chunk h (length bytes) (cut b';' line).1 (record c { src = bytes ++ rest })
        ≡ ok (in_chunk c.verify c signature bytes rest)
  unfolding take_chunk verify_chunk chunk_string
  take_chunk_lem c line bytes signature rest (size, signed) = elim (Bool-cases c.verify) [
    | inr e ↦ rw e refl
    | inl e ↦
        let (from, right) = signed e in
        rw (e, from, read_full_lem bytes rest, right, bytes_eq_refl signature) refl
  ]

  next_chunk_header :
      (c : Reader) (line bytes signature rest : Bytes)
      → IsLine line
      → IsHeader c line bytes signature
      → c.src ≡ line ++ (13 ∷ 10 ∷ (bytes ++ rest))
      → next_chunk h c ≡ close_chunk h (length bytes) (in_chunk c.verify c signature bytes rest)
  unfolding next_chunk
  next_chunk_header c line bytes signature rest l hd src =
      let line_read : read_line c.src ≡ ok (line, bytes ++ rest) =
        ap read_line src ∙ read_line_lem line (bytes ++ rest) l in
      rw (line_read, hd.0, take_chunk_lem c line bytes signature rest hd) refl

  pub next_chunk_data :
      (c : Reader) (line bytes signature rest : Bytes)
      → IsLine line
      → IsHeader c line bytes signature
      → c.src ≡ line ++ (13 ∷ 10 ∷ (bytes ++ rest))
      → 1 ≤ length bytes
      → next_chunk h c
        ≡ ok (record (in_chunk c.verify c signature bytes rest) { at_chunk_end = true })
  unfolding close_chunk
  next_chunk_data c line bytes signature rest l hd src n =
      let some_bytes : (length bytes == 0) ≡ false = ground arith in
      next_chunk_header c line bytes signature rest l hd src ∙ rw some_bytes refl

  -- After the final chunk.
  abbrev pub closed : Reader → Bytes → Bytes → Reader
  closed c signature rest = record c {
    src = rest;
    prev_signature = chained c.verify c signature;
    pending = [];
    remaining = 0;
    finished = true;
  }

  close_last :
      (signed : Bool) (c : Reader) (signature trailers rest : Bytes)
      → consume_trailers trailers ≡ ok rest
      → close_chunk h 0 (in_chunk signed c signature [] trailers)
        ≡ ok (record c {
          src = rest;
          prev_signature = chained signed c signature;
          pending = [];
          remaining = 0;
          finished = true;
        })
  unfolding close_chunk
  close_last true c signature trailers rest e = rw e refl
  close_last false c signature trailers rest e = rw e refl

  pub next_chunk_last :
      (c : Reader) (line signature trailers rest : Bytes)
      → IsLine line
      → IsHeader c line [] signature
      → c.src ≡ line ++ (13 ∷ 10 ∷ trailers)
      → consume_trailers trailers ≡ ok rest
      → next_chunk h c ≡ ok (closed c signature rest)
  next_chunk_last c line signature trailers rest l hd src e =
      next_chunk_header c line [] signature trailers l hd src
      ∙ close_last c.verify c signature trailers rest e

  pub next_chunk_cut : (c : Reader) → c.src ≡ [] → next_chunk h c ≡ err eof
  unfolding next_chunk read_line read_string bytes_eq
  next_chunk_cut c e = rw e refl
