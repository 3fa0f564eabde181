-- ===== src/S3Api/Chunked.antt =====
-- internal/s3api/chunked.go: the reader of an aws-chunked body. The buffered source is the bytes that
-- are still to come; how many of them a read of the source returns at once is an argument.
pub mod Framing
pub mod Delivery
pub mod Body
mod Tests
use infra_lightwight_s3_serv.Prelude.{
  ℕ, zero, suc, ◌+◌, ◌-◌, ◌*◌, ◌==◌, ltb, leb, Bool, true, false, not, ◌&&◌, ◌||◌, Bytes, List, [],
  ◌∷◌, ◌++◌, reverse, bytes_eq, codes, cut, join, trim_space, take, drop, length, ℤ, pos, negsuc,
  hex_value, hex_encode, Option, none, some, Result, ok, err, ◌>>=◌, if◌then◌else◌, negated,
}
use infra_lightwight_s3_serv.S3Api.Signature.{Scope, scope_string, Hashes, sign}

pub data ReadError : Type 0 where
  eof malformed_chunk chunk_signature : ReadError

pub record Reader : Type 0 where
  pub src : Bytes
  pub verify : Bool
  pub signing_key : Bytes
  pub scope : Scope
  pub timestamp : Bytes
  pub prev_signature : Bytes
  pub pending : Bytes
  pub remaining : ℕ
  pub at_chunk_end : Bool
  pub finished : Bool
  pub error : Option ReadError

unfoldable pub new_chunked_reader : Bytes → Reader
new_chunked_reader src = record {
  src = src;
  verify = false;
  signing_key = [];
  scope = record { date = []; region = []; service = [] };
  timestamp = [];
  prev_signature = [];
  pending = [];
  remaining = 0;
  at_chunk_end = false;
  finished = false;
  error = none;
}

unfoldable pub new_signed_chunked_reader : Bytes → Bytes → Scope → Bytes → Bytes → Reader
new_signed_chunked_reader src signing_key scope timestamp seed_signature = record {
  src = src;
  verify = true;
  signing_key = signing_key;
  scope = scope;
  timestamp = timestamp;
  prev_signature = seed_signature;
  pending = [];
  remaining = 0;
  at_chunk_end = false;
  finished = false;
  error = none;
}

abbrev pub max_chunk_header_size : ℕ
max_chunk_header_size = 1024

abbrev pub max_chunk_size : ℕ
max_chunk_size = 16777216

abbrev pub max_trailer_bytes : ℕ
max_trailer_bytes = 8192

-- ReadString of a newline: the line with its newline, if there is one, and what follows.
unfoldable pub read_string : Bytes → Bytes × Bytes
read_string [] = ([], [])
read_string (c ∷ s) =
    let (line, rest) = read_string s in if c == 10 then (c ∷ [], s) else (c ∷ line, rest)

unfoldable pub trim_end : Bytes → Bytes
trim_end [] = []
trim_end (c ∷ s) = if c == 13 || c == 10 then trim_end s else c ∷ s

-- strings.TrimRight of carriage returns and newlines.
unfoldable pub trim_right_crlf : Bytes → Bytes
unfolding trim_end
trim_right_crlf s = reverse (trim_end (reverse s))

-- readLine, with the bytes that it leaves.
unfoldable pub read_line : Bytes → Result ReadError (Bytes × Bytes)
unfolding read_string trim_right_crlf
read_line src =
    let (line, rest) = read_string src in
    if bytes_eq line []
    then err eof
    else if ltb max_chunk_header_size (length line)
    then err malformed_chunk
    else ok (trim_right_crlf line, rest)

unfoldable pub hex_digits : ℕ → Bytes → Option ℕ
unfolding hex_value
hex_digits n [] = some n
hex_digits n (c ∷ s) = elim (hex_value c) [ none ↦ none | some d ↦ hex_digits (n * 16 + d) s ]

unfoldable pub hex_natural : Bytes → Option ℕ
unfolding hex_digits
hex_natural [] = none
hex_natural (c ∷ s) = hex_digits 0 (c ∷ s)

-- strconv.ParseInt with base 16 and 64 bits, where it is not negative.
unfoldable pub parse_size : Bytes → Option ℕ
unfolding hex_natural
parse_size [] = none
parse_size (c ∷ s) =
    elim (if c == b'+'
      then hex_natural s
      else if c == b'-'
      then elim (hex_natural s) [ none ↦ none | some n ↦ if n == 0 then some 0 else none ]
      else hex_natural (c ∷ s)) [
        | none ↦ none
        | some n ↦ if ltb n 9223372036854775808 then some n else none
      ]

-- chunkSignatureFrom.
unfoldable pub signature_from : Option Bytes → Result ReadError Bytes
unfolding cut trim_space
signature_from none = err malformed_chunk
signature_from (some param) =
    let (name, value) = cut b'=' (trim_space param) in
    elim value [
      | none ↦ err malformed_chunk
      | some v ↦
          if not (bytes_eq name (codes "chunk-signature")) || bytes_eq v []
          then err malformed_chunk
          else ok v
    ]

-- The size in the header of a chunk.
unfoldable pub size_of : Bytes → Result ReadError ℕ
unfolding parse_size trim_space
size_of field = elim (parse_size (trim_space field)) [
  | none ↦ err malformed_chunk
  | some n ↦ if ltb max_chunk_size n then err malformed_chunk else ok n
]

-- io.ReadFull.
unfoldable pub read_full : ℕ → Bytes → Result ReadError (Bytes × Bytes)
read_full n src = if ltb (length src) n then err malformed_chunk else ok (take n src, drop n src)

unfoldable pub expect_crlf : Bytes → Result ReadError Bytes
expect_crlf [] = err malformed_chunk
expect_crlf (a ∷ []) = err malformed_chunk
expect_crlf (a ∷ b ∷ s) = if a == 13 && b == 10 then ok s else err malformed_chunk

-- The loop of consumeTrailers, whose every round reads a line of at least one byte. `read` is the
-- number of bytes so far.
unfoldable pub trailer_loop : ℕ → ℕ → Bytes → Result ReadError Bytes
unfolding read_line
trailer_loop zero read src = err malformed_chunk
trailer_loop (suc fuel) read src = elim (read_line src) [
  | err e ↦ elim e [
    | eof ↦ ok src
    | malformed_chunk ↦ err malformed_chunk
    | chunk_signature ↦ err chunk_signature
  ]
  | ok (line, rest) ↦
      let more = trailer_loop fuel (read + length line) rest in
      if bytes_eq line []
      then ok rest
      else if ltb max_trailer_bytes (read + length line)
      then err malformed_chunk
      else more
]

unfoldable pub consume_trailers : Bytes → Result ReadError Bytes
unfolding trailer_loop
consume_trailers src = trailer_loop (suc (length src)) 0 src

unfoldable pub end_of_chunk : Reader → Result ReadError Reader
unfolding expect_crlf
end_of_chunk c =
    if c.at_chunk_end
    then (expect_crlf c.src >>= λ rest. ok (record c { src = rest; at_chunk_end = false }))
    else ok c

-- What Read returns: the reader afterwards, the bytes and the error.
abbrev pub Answer : Type 0
Answer = Reader × Bytes × Option ReadError

unfoldable pub after_delivery : Reader → Bytes → Result ReadError Reader → Answer
after_delivery c bytes (ok c') = (c', bytes, none)
after_delivery c bytes (err e) = (record c { error = some e }, bytes, some e)

unfoldable pub deliver_pending : ℕ → Reader → Answer
unfolding end_of_chunk after_delivery
deliver_pending len c =
    let c' : Reader = record c { pending = drop len c.pending } in
    if bytes_eq c'.pending []
    then after_delivery c' (take len c.pending) (end_of_chunk c')
    else (c', take len c.pending, none)

-- The reader after `n` bytes of the source.
unfoldable pub deliver_source : ℕ → Reader → Answer
unfolding end_of_chunk after_delivery
deliver_source n c =
    let bytes = take n c.src in
    let c' : Reader = record c { src = drop n c.src; remaining = c.remaining - length bytes } in
    if bytes_eq c.src []
    then (record c { error = some malformed_chunk }, [], some malformed_chunk)
    else if c'.remaining == 0
    then after_delivery c' bytes (end_of_chunk c')
    else (c', bytes, none)

-- A read of the source returns at most `ready` bytes.
unfoldable pub amount : ℕ → ℕ → ℕ → ℕ
amount remaining len ready =
    let want = if ltb remaining len then remaining else len in
    if ltb ready want then ready else want

unfoldable pub deliver_remaining : ℕ → ℕ → Reader → Answer
unfolding deliver_source amount
deliver_remaining len ready c = deliver_source (amount c.remaining len ready) c

unfoldable pub prepend :
    Bytes → Option (Bytes × Option ReadError) → Option (Bytes × Option ReadError)
prepend out none = none
prepend out (some (bytes, e)) = some (out ++ bytes, e)

module _ (h : Hashes) where
  unfoldable pub chunk_string : Reader → Bytes → Bytes
  unfolding scope_string join hex_encode
  chunk_string c bytes = join (10 ∷ []) (
      codes "AWS4-HMAC-SHA256-PAYLOAD"
      ∷ c.timestamp
      ∷ scope_string c.scope
      ∷ c.prev_signature
      ∷ hex_encode (h.sha256 [])
      ∷ hex_encode (h.sha256 bytes)
      ∷ [])

  unfoldable pub verify_chunk : Bytes → Bytes → Reader → Result ReadError Reader
  unfolding sign chunk_string
  verify_chunk bytes signature c =
      if bytes_eq (sign h c.signing_key (chunk_string c bytes)) signature
      then ok (record c { prev_signature = signature })
      else err chunk_signature

  -- The chunk of a size: buffered and verified, or left to be read from the source.
  unfoldable pub take_chunk : ℕ → Option Bytes → Reader → Result ReadError Reader
  unfolding signature_from read_full verify_chunk
  take_chunk size param c =
      if c.verify
      then (do
        signature ← signature_from param
        (bytes, rest) ← read_full size c.src
        c' ← verify_chunk bytes signature (record c { src = rest })
        ok (record c' { pending = bytes }))
      else ok (record c { remaining = size })

  unfoldable pub close_chunk : ℕ → Reader → Result ReadError Reader
  unfolding consume_trailers
  close_chunk size c =
      if size == 0
      then (consume_trailers c.src >>= λ rest.
          ok (record c { src = rest; pending = []; remaining = 0; finished = true }))
      else ok (record c { at_chunk_end = true })

  unfoldable pub next_chunk : Reader → Result ReadError Reader
  unfolding read_line cut size_of take_chunk close_chunk
  next_chunk c = do
    (line, rest) ← read_line c.src
    size ← size_of (cut b';' line).0
    c' ← take_chunk size (cut b';' line).1 (record c { src = rest })
    close_chunk size c'

  -- The loop of Read.
  unfoldable pub read_loop : ℕ → ℕ → ℕ → Reader → Option Answer
  read_loop zero len ready c = none
  read_loop (suc fuel) len ready c =
      if not (bytes_eq c.pending [])
      then some (deliver_pending len c)
      else if ltb 0 c.remaining
      then some (deliver_remaining len ready c)
      else if c.finished
      then some (c, [], some eof)
      else elim (next_chunk c) [
        | err e ↦ some (record c { error = some e }, [], some e)
        | ok c' ↦ read_loop fuel len ready c'
      ]

  -- Two rounds are enough, since a chunk that is not the last leaves bytes to deliver.
  unfoldable pub read : ℕ → ℕ → Reader → Option Answer
  read len ready c = elim c.error [
    | some e ↦ some (c, [], some e)
    | none ↦ if len == 0 then some (c, [], none) else read_loop 2 len ready c
  ]

  -- The loop of copyWithContext in internal/storage/blobstore.go: a read for each buffer, until one
  -- returns an error, of which EOF is the end of the body.
  unfoldable pub read_body : List (ℕ × ℕ) → Reader → Option (Bytes × Option ReadError)
  unfolding prepend
  read_body [] c = some ([], none)
  read_body ((len, ready) ∷ calls) c = elim (read len ready c) [
    | none ↦ none
    | some (c', out, e) ↦ elim e [
      | some e' ↦ some (out, some e')
      | none ↦ prepend out (read_body calls c')
    ]
  ]
