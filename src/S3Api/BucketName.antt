-- ===== src/S3Api/BucketName.antt =====
-- internal/s3api/bucketname.go: which bucket names and object keys are accepted, and which rule a
-- refused one breaks. A name that reaches net.ParseIP holds no colon, so what is asked of it is
-- whether the name is four decimal numbers below 256, without leading zeros, between periods.
use infra_lightwight_s3_serv.Prelude.{
  ℕ, ◌+◌, ◌*◌, ◌-◌, ◌≤◌, leb, ltb, ◌==◌, Bool, true, false, not, ◌&&◌, ◌||◌, Bytes, List, [], ◌∷◌,
  codes, contains, has_prefix, has_suffix, length, any, all, reverse, split, Option, none, some,
  if◌then◌else◌, ◌≡◌, refl, arith, Bool-cases, ◌↔◌, inl, inr,
}

-- The rules of a bucket name and of an object key.
pub data NameError : Type 0 where
  wrong_length uppercase bad_character bad_start bad_end adjacent_periods : NameError
  period_by_hyphen ip_address reserved_prefix reserved_suffix : NameError
  empty_key key_too_long null_byte : NameError

-- minBucketNameLength, maxBucketNameLength and maxObjectKeyLength.
abbrev pub min_bucket_name_length : ℕ
min_bucket_name_length = 3

abbrev pub max_bucket_name_length : ℕ
max_bucket_name_length = 63

abbrev pub max_object_key_length : ℕ
max_object_key_length = 1024

abbrev pub reserved_bucket_prefixes : List Bytes
reserved_bucket_prefixes = codes "xn--" ∷ codes "sthree-" ∷ codes "amzn-s3-demo-" ∷ []

abbrev pub reserved_bucket_suffixes : List Bytes
reserved_bucket_suffixes = codes "-s3alias" ∷ codes "--ol-s3" ∷ codes ".mrap" ∷ codes "--x-s3" ∷ []

unfoldable pub is_bucket_name_alnum : ℕ → Bool
is_bucket_name_alnum c = (leb b'a' c && leb c b'z') || (leb b'0' c && leb c b'9')

unfoldable pub is_bucket_name_byte : ℕ → Bool
unfolding is_bucket_name_alnum
is_bucket_name_byte c = is_bucket_name_alnum c || c == b'-' || c == b'.'

-- The loop over the bytes.
unfoldable pub bad_byte : Bytes → Option NameError
unfolding is_bucket_name_byte
bad_byte [] = none
bad_byte (c ∷ s) =
    if is_bucket_name_byte c
    then bad_byte s
    else if leb b'A' c && leb c b'Z'
    then some uppercase
    else some bad_character

-- One number of an address: up to three digits, no leading zero, below 256.
unfoldable pub is_octet : Bytes → Bool
is_octet [] = false
is_octet (a ∷ []) = leb b'0' a && leb a b'9'
is_octet (a ∷ b ∷ []) = leb b'1' a && leb a b'9' && leb b'0' b && leb b b'9'
is_octet (a ∷ b ∷ c ∷ []) =
    leb b'1' a
    && leb a b'9'
    && leb b'0' b
    && leb b b'9'
    && leb b'0' c
    && leb c b'9'
    && leb ((a - b'0') * 100 + (b - b'0') * 10 + (c - b'0')) 255
is_octet (a ∷ b ∷ c ∷ d ∷ s) = false

unfoldable pub is_address : Bytes → Bool
unfolding is_octet
is_address s = length (split b'.' s) == 4 && all is_octet (split b'.' s)

-- The test of the first byte that a list has.
unfoldable pub starts_alnum : Bytes → Bool
unfolding is_bucket_name_alnum
starts_alnum [] = false
starts_alnum (c ∷ s) = is_bucket_name_alnum c

-- The rules on which bytes stand beside each other, and the reserved names.
unfoldable pub bad_shape : Bytes → Option NameError
unfolding starts_alnum is_address
bad_shape name =
    if not (starts_alnum name)
    then some bad_start
    else if not (starts_alnum (reverse name))
    then some bad_end
    else if contains name (codes "..")
    then some adjacent_periods
    else if contains name (codes ".-") || contains name (codes "-.")
    then some period_by_hyphen
    else if is_address name
    then some ip_address
    else if any (has_prefix name) reserved_bucket_prefixes
    then some reserved_prefix
    else if any (has_suffix name) reserved_bucket_suffixes
    then some reserved_suffix
    else none

-- The error of the first check that finds one.
abbrev first_error : Option NameError → Option NameError → Option NameError
first_error (some e) m = some e
first_error none m = m

-- ValidateBucketName: `none` accepts.
unfoldable pub validate_bucket_name : Bytes → Option NameError
unfolding bad_byte bad_shape
validate_bucket_name name =
    if ltb (length name) min_bucket_name_length || ltb max_bucket_name_length (length name)
    then some wrong_length
    else first_error (bad_byte name) (bad_shape name)

unfoldable pub validate_object_key : Bytes → Option NameError
validate_object_key key =
    if length key == 0
    then some empty_key
    else if ltb max_object_key_length (length key)
    then some key_too_long
    else if any (λ c. c == 0) key
    then some null_byte
    else none

-- What an accepted name is, without the order of the rules.
abbrev pub IsBucketName : Bytes → Type 0
IsBucketName name =
    (min_bucket_name_length ≤ length name)
    × (length name ≤ max_bucket_name_length)
    × (all is_bucket_name_byte name ≡ true)
    × (starts_alnum name ≡ true)
    × (starts_alnum (reverse name) ≡ true)
    × (contains name (codes "..") ≡ false)
    × (contains name (codes ".-") ≡ false)
    × (contains name (codes "-.") ≡ false)
    × (is_address name ≡ false)
    × (any (has_prefix name) reserved_bucket_prefixes ≡ false)
    × (any (has_suffix name) reserved_bucket_suffixes ≡ false)

guard_none :
    (b : Bool) (e : NameError) (m : Option NameError)
    → (if b then some e else m) ≡ none
    → (b ≡ false) × (m ≡ none)
guard_none true e m h = absurd (cc)
guard_none false e m h = (refl, h)

bad_byte-none : (s : Bytes) → (bad_byte s ≡ none) ↔ (all is_bucket_name_byte s ≡ true)
unfolding bad_byte
bad_byte-none [] = ground arith
bad_byte-none (c ∷ s) = elim (Bool-cases (is_bucket_name_byte c)) [
  | inl e ↦ rw e (ground (arith, bad_byte-none s))
  | inr e ↦ rw e (
    (λ h. absurd (cc ((guard_none (leb b'A' c && leb c b'Z') uppercase (some bad_character) h).1))),
    (λ h. absurd (cc)),
  )
]

first_error-none : (a b : Option NameError) → first_error a b ≡ none → (a ≡ none) × (b ≡ none)
first_error-none (some e) b h = absurd (cc)
first_error-none none b h = (refl, h)

bad_shape-none :
    (name : Bytes)
    → bad_shape name ≡ none
    → (starts_alnum name ≡ true)
      × (starts_alnum (reverse name) ≡ true)
      × (contains name (codes "..") ≡ false)
      × (contains name (codes ".-") ≡ false)
      × (contains name (codes "-.") ≡ false)
      × (is_address name ≡ false)
      × (any (has_prefix name) reserved_bucket_prefixes ≡ false)
      × (any (has_suffix name) reserved_bucket_suffixes ≡ false)
unfolding bad_shape
bad_shape-none name h =
    let (b1, h1) = guard_none (not (starts_alnum name)) _ _ h in
    let (b2, h2) = guard_none (not (starts_alnum (reverse name))) _ _ h1 in
    let (b3, h3) = guard_none (contains name (codes "..")) _ _ h2 in
    let (b4, h4) = guard_none (contains name (codes ".-") || contains name (codes "-.")) _ _ h3 in
    let (b5, h5) = guard_none (is_address name) _ _ h4 in
    let (b6, h6) = guard_none (any (has_prefix name) reserved_bucket_prefixes) _ _ h5 in
    let (b7, h7) = guard_none (any (has_suffix name) reserved_bucket_suffixes) _ _ h6 in
    (ground arith, ground arith, b3, ground arith, ground arith, b5, b6, b7)

-- A name is accepted just if it is from 3 to 63 lowercase letters, digits, hyphens and periods,
-- starts and ends with a letter or a digit, has no two periods and no period and hyphen beside each
-- other, is no IPv4 address, and has neither a reserved prefix nor a reserved suffix.
pub validate_bucket_name_iff :
    (name : Bytes) → (validate_bucket_name name ≡ none) ↔ IsBucketName name
unfolding validate_bucket_name bad_shape
validate_bucket_name_iff name = (
  (λ h.
      let (b, h1) =
        guard_none
          (ltb (length name) min_bucket_name_length || ltb max_bucket_name_length (length name)) _ _
          h in
      let (c, h2) = first_error-none (bad_byte name) (bad_shape name) h1 in
      let (s1, s2, d, p1, p2, a, r, t) = bad_shape-none name h2 in
      (ground arith, ground arith, (bad_byte-none name).0 c, s1, s2, d, p1, p2, a, r, t)),
  (λ (l, m, c, s1, s2, d, p1, p2, a, r, t).
      let w : (ltb (length name) min_bucket_name_length || ltb max_bucket_name_length (length name))
          ≡ false =
        ground arith in
      rw (w, (bad_byte-none name).1 c, s1, s2, d, p1, p2, a, r, t) refl),
)
