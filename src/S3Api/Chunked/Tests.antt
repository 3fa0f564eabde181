-- ===== src/S3Api/Chunked/Tests.antt =====
-- The theorems on chunked bodies at concrete bytes.
use infra_lightwight_s3_serv.Prelude.{
  ℕ, ◌≤◌, true, false, Bytes, List, [], ◌∷◌, ◌++◌, codes, length, cut, bytes_eq, trim_space, Option,
  none, some, ok, ◌≡◌, ◌⊎◌, refl, arith, trim_left, trim_right, trim_by, is_space, hex_value,
}
use infra_lightwight_s3_serv.S3Api.Signature.{Hashes}
use infra_lightwight_s3_serv.S3Api.Chunked.{
  ReadError, eof, new_chunked_reader, read_body, size_of, parse_size, hex_natural, hex_digits,
  consume_trailers, trailer_loop, read_line, read_string, trim_right_crlf, trim_end,
}
use infra_lightwight_s3_serv.S3Api.Chunked.Framing.{Frames}
use infra_lightwight_s3_serv.S3Api.Chunked.Body.{IsFresh, read_body_lem, read_body-cut}

abbrev hashes : Hashes
hashes = record { sha256 = λ s. s; hmac = λ k s. k ++ s }

-- Two chunks, and a final one.
abbrev two_chunks : Bytes
two_chunks =
    codes "3"
    ++ (13
        ∷ 10
        ∷ (codes "abc" ++ (13 ∷ 10 ∷ (codes "2" ++ (13 ∷ 10 ∷ (codes "de" ++ (13 ∷ 10 ∷ [])))))))

abbrev whole : Bytes
whole =
    codes "3" ++ (13 ∷ 10 ∷ (codes "abc" ++ (13 ∷ 10 ∷ (codes "0" ++ (13 ∷ 10 ∷ (13 ∷ 10 ∷ []))))))

three : size_of (cut b';' (codes "3")).0 ≡ ok 3
unfolding size_of cut parse_size hex_natural hex_digits trim_space trim_left trim_right trim_by
    is_space hex_value
three = refl

two : size_of (cut b';' (codes "2")).0 ≡ ok 2
unfolding size_of cut parse_size hex_natural hex_digits trim_space trim_left trim_right trim_by
    is_space hex_value
two = refl

zero_size : size_of (cut b';' (codes "0")).0 ≡ ok 0
unfolding size_of cut parse_size hex_natural hex_digits trim_space trim_left trim_right trim_by
    is_space hex_value
zero_size = refl

no_trailers : consume_trailers (13 ∷ 10 ∷ []) ≡ ok []
unfolding consume_trailers trailer_loop read_line read_string trim_right_crlf trim_end bytes_eq
no_trailers = refl

is_framed : Frames hashes false (codes "abc" ∷ []) (new_chunked_reader whole)
unfolding new_chunked_reader
is_framed = (
  codes "3",
  [],
  codes "0" ++ (13 ∷ 10 ∷ (13 ∷ 10 ∷ [])),
  (refl, omega arith),
  (three, λ h. absurd (cc)),
  refl,
  omega arith,
  (
    codes "0",
    [],
    13 ∷ 10 ∷ [],
    [],
    (refl, omega arith),
    (zero_size, λ h. absurd (cc)),
    refl,
    no_trailers,
  ),
)

is_cut : Frames hashes true (codes "abc" ∷ codes "de" ∷ []) (new_chunked_reader two_chunks)
unfolding new_chunked_reader
is_cut = (
  codes "3",
  [],
  codes "2" ++ (13 ∷ 10 ∷ (codes "de" ++ (13 ∷ 10 ∷ []))),
  (refl, omega arith),
  (three, λ h. absurd (cc)),
  refl,
  omega arith,
  (codes "2", [], [], (refl, omega arith), (two, λ h. absurd (cc)), refl, omega arith, refl),
)

fresh : (src : Bytes) → IsFresh (new_chunked_reader src)
unfolding new_chunked_reader
fresh src = (refl, refl, refl, refl, refl)

abbrev calls : List (ℕ × ℕ)
calls = (2, 9) ∷ (2, 1) ∷ (8, 8) ∷ (8, 8) ∷ (8, 8) ∷ (8, 8) ∷ []

read_body_lem_example :
    (out : Bytes) × (e : Option ReadError) × (read_body hashes calls (new_chunked_reader whole)
      ≡ some (out, e))
    × (((e ≡ some eof) × (out ≡ codes "abc"))
        ⊎ ((e ≡ none) × (rest : Bytes) × (codes "abc" ≡ out ++ rest) × (length calls ≤ length out)))
read_body_lem_example =
    read_body_lem hashes (new_chunked_reader whole) (codes "abc" ∷ []) calls (fresh whole) is_framed
      (omega arith)

read_body-cut_example :
    read_body hashes calls (new_chunked_reader two_chunks) ≡ some (codes "abcde", some eof)
read_body-cut_example =
    read_body-cut hashes (new_chunked_reader two_chunks) (codes "abc" ∷ codes "de" ∷ []) calls
      (fresh two_chunks) is_cut (omega arith) (omega arith)
