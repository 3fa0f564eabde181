-- ===== src/S3Api/Encoding.antt =====
-- internal/s3api/encoding.go: percent-encoding by the rules of SigV4.
use infra_lightwight_s3_serv.Prelude.{
  ℕ, zero, suc, ◌+◌, ◌-◌, ◌*◌, ◌/◌, ◌%◌, ◌<◌, leb, ltb, ◌==◌, Bool, true, false, not, ◌&&◌, ◌||◌,
  Bytes, [], ◌∷◌, ◌++◌, codes, contains, get_elem?, has_prefix, all, Option, none, some,
  if◌then◌else◌, ◌≡◌, refl, arith, Bool-cases, Option-cases, inl, inr, ap, subst, ◌∙◌, sym, ==_iff,
}

abbrev upper_hex : Bytes
upper_hex = codes "0123456789ABCDEF"

-- upperHex[n].
unfoldable pub hex_digit : ℕ → ℕ
hex_digit n = elim (get_elem? upper_hex n) [ none ↦ 0 | some d ↦ d ]

unfoldable pub is_unreserved : ℕ → Bool
is_unreserved c =
    (leb b'A' c && leb c b'Z')
    || (leb b'a' c && leb c b'z')
    || (leb b'0' c && leb c b'9')
    || c == b'-'
    || c == b'_'
    || c == b'.'
    || c == b'~'

-- The bytes of one byte.
unfoldable pub encode_byte : Bool → ℕ → Bytes
unfolding is_unreserved hex_digit
encode_byte encode_slash c =
    if is_unreserved c
    then c ∷ []
    else if c == b'/' && not encode_slash
    then b'/' ∷ []
    else b'%' ∷ hex_digit (c / 16) ∷ hex_digit (c % 16) ∷ []

unfoldable pub uri_encode : Bytes → Bool → Bytes
unfolding encode_byte
uri_encode [] encode_slash = []
uri_encode (c ∷ s) encode_slash = encode_byte encode_slash c ++ uri_encode s encode_slash

unfoldable pub unhex : ℕ → Option ℕ
unhex c =
    if leb b'0' c && leb c b'9'
    then some (c - b'0')
    else if leb b'a' c && leb c b'f'
    then some (c - b'a' + 10)
    else if leb b'A' c && leb c b'F'
    then some (c - b'A' + 10)
    else none

-- hi<<4 | lo: the digits do not overlap.
unfoldable pub join_digits : Option ℕ → Option ℕ → Option ℕ
join_digits (some hi) (some lo) = some (hi * 16 + lo)
join_digits _ _ = none

unfoldable pub then_decoded : Option ℕ → Option Bytes → Option Bytes
then_decoded (some c) (some s) = some (c ∷ s)
then_decoded _ _ = none

-- The loop of percentDecode; `none` is errInvalidEscape.
unfoldable pub decode_loop : Bytes → Option Bytes
unfolding unhex join_digits then_decoded
decode_loop [] = some []
decode_loop (c ∷ []) = if c == b'%' then none else some (c ∷ [])
decode_loop (c ∷ d ∷ []) = if c == b'%' then none else then_decoded (some c) (decode_loop (d ∷ []))
decode_loop (c ∷ d ∷ e ∷ s) =
    let escaped = then_decoded (join_digits (unhex d) (unhex e)) (decode_loop s) in
    let plain = then_decoded (some c) (decode_loop (d ∷ e ∷ s)) in
    if c == b'%' then escaped else plain

unfoldable pub percent_decode : Bytes → Option Bytes
unfolding decode_loop
percent_decode s = if not (contains s (codes "%")) then some s else decode_loop s

decode_plain :
    (c : ℕ) (s : Bytes)
    → (c == b'%') ≡ false
    → decode_loop (c ∷ s) ≡ then_decoded (some c) (decode_loop s)
unfolding decode_loop
decode_plain c [] h = rw h
decode_plain c (d ∷ []) h = rw h
decode_plain c (d ∷ e ∷ s) h = rw h

decode_escape :
    (d e : ℕ) (s : Bytes)
    → decode_loop (b'%' ∷ d ∷ e ∷ s)
      ≡ then_decoded (join_digits (unhex d) (unhex e)) (decode_loop s)
unfolding decode_loop
decode_escape d e s = refl

-- The test holds below the bound.
unfoldable all_below : ℕ → (ℕ → Bool) → Bool
all_below zero p = true
all_below (suc n) p = p n && all_below n p

all_below_lem : (n : ℕ) (p : ℕ → Bool) (i : ℕ) → all_below n p ≡ true → i < n → p i ≡ true
unfolding all_below
all_below_lem zero p i h k = absurd (omega arith)
all_below_lem (suc n) p i h k = elim (Bool-cases (i == n)) [
  | inl e ↦ subst (λ j. p j ≡ true) (sym ((==_iff i n).0 e)) (ground arith)
  | inr e ↦ all_below_lem n p i (ground arith) (ground arith)
]

unfoldable reads_back : ℕ → Bool
unfolding unhex hex_digit
reads_back n = elim (unhex (hex_digit n)) [ none ↦ false | some m ↦ m == n ]

digits_read_back : all_below 16 reads_back ≡ true
unfolding all_below reads_back hex_digit unhex
digits_read_back = refl

reads_back_lem : (n : ℕ) → reads_back n ≡ true → unhex (hex_digit n) ≡ some n
unfolding reads_back
reads_back_lem n h = elim (Option-cases (unhex (hex_digit n))) [
  | inl e ↦ absurd (ground arith)
  | inr (m, e) ↦ rw e (ap some (ground arith))
]

-- Every digit is read back.
unhex-hex_digit : (n : ℕ) → n < 16 → unhex (hex_digit n) ≡ some n
unhex-hex_digit n h = reads_back_lem n (all_below_lem 16 reads_back n digits_read_back h)

unreserved_plain : (c : ℕ) → is_unreserved c ≡ true → (c == b'%') ≡ false
unfolding is_unreserved
unreserved_plain c h = ground arith

decode-encode_byte :
    (encode_slash : Bool) (c : ℕ) (s : Bytes)
    → c < 256
    → decode_loop (encode_byte encode_slash c ++ s) ≡ then_decoded (some c) (decode_loop s)
unfolding encode_byte join_digits
decode-encode_byte encode_slash c s h = elim (Bool-cases (is_unreserved c)) [
  | inl e ↦ rw e (decode_plain c s (unreserved_plain c e))
  | inr e ↦ elim (Bool-cases (c == b'/' && not encode_slash)) [
    | inl k ↦
        rw (e, k)
          (decode_plain b'/' s refl
            ∙ ap (λ x. then_decoded (some x) (decode_loop s))
                (sym ((==_iff c b'/').0 (ground arith))))
    | inr k ↦
        rw (e, k)
          (decode_escape (hex_digit (c / 16)) (hex_digit (c % 16)) s
            ∙ rw (unhex-hex_digit (c / 16) (omega arith), unhex-hex_digit (c % 16) (omega arith))
                (ap (λ x. then_decoded (some x) (decode_loop s)) (omega arith)))
  ]
]

decode-uri_encode :
    (encode_slash : Bool) (s : Bytes)
    → all (λ c. ltb c 256) s ≡ true
    → decode_loop (uri_encode s encode_slash) ≡ some s
unfolding uri_encode then_decoded decode_loop
decode-uri_encode encode_slash [] h = refl
decode-uri_encode encode_slash (c ∷ s) h =
    decode-encode_byte encode_slash c (uri_encode s encode_slash) (ground arith)
    ∙ rw (decode-uri_encode encode_slash s (ground arith)) refl

-- The loop leaves a string without a percent sign as it is.
decode_without_percent : (s : Bytes) → contains s (codes "%") ≡ false → decode_loop s ≡ some s
unfolding contains has_prefix then_decoded decode_loop
decode_without_percent [] h = refl
decode_without_percent (c ∷ s) h =
    decode_plain c s (ground arith) ∙ rw (decode_without_percent s (ground arith)) refl

percent_decode_loop : (s : Bytes) → percent_decode s ≡ decode_loop s
unfolding percent_decode
percent_decode_loop s = elim (Bool-cases (contains s (codes "%"))) [
  | inl e ↦ rw e refl
  | inr e ↦ rw e (sym (decode_without_percent s e))
]

-- Decoding what URIEncode wrote gives the string back, for every string of bytes and whether or not
-- slashes are encoded.
pub percent_decode-uri_encode :
    (s : Bytes) (encode_slash : Bool)
    → all (λ c. ltb c 256) s ≡ true
    → percent_decode (uri_encode s encode_slash) ≡ some s
percent_decode-uri_encode s encode_slash h =
    percent_decode_loop (uri_encode s encode_slash) ∙ decode-uri_encode encode_slash s h
