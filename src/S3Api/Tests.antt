-- ===== src/S3Api/Tests.antt =====
-- The theorems on internal/s3api at concrete requests.
use infra_lightwight_s3_serv.Prelude.{
  ℕ, true, false, Bytes, [], ◌∷◌, codes, Option, none, some, ◌≡◌, ◌↔◌, ◌&&◌, refl, implies,
  has_prefix, bytes_eq,
}
use infra_lightwight_s3_serv.Db.Grants.{
  read, Grant, allows, allows_anywhere_in, allows_whole_bucket, visible,
}
use infra_lightwight_s3_serv.S3Api.Authorize.{
  ListingLimit, listing_limit_for, allows_key, allows_common_prefix, narrow,
}
use infra_lightwight_s3_serv.S3Api.Authorize.Levels.{grant_levels}
use infra_lightwight_s3_serv.S3Api.Authorize.Listings.{
  allows_key-allows, allows_common_prefix-allows_key, narrow_sound,
}
use infra_lightwight_s3_serv.S3Api.BucketName.{
  validate_bucket_name, IsBucketName, validate_bucket_name_iff,
}
use infra_lightwight_s3_serv.S3Api.Conditional.{
  Headers, get, check_preconditions, if_match_precedence, if_none_match_precedence,
}
use infra_lightwight_s3_serv.S3Api.Encoding.{uri_encode, percent_decode, percent_decode-uri_encode}

abbrev photos : Bytes
photos = codes "photos"

-- A key that may read what is under 2026/.
abbrev scoped : Grant
scoped = record {
  unrestricted = false;
  rules = record { bucket = photos; prefix = codes "2026/"; permissions = read ∷ [] } ∷ [];
}

grant_levels_example :
    (implies
        (allows_whole_bucket scoped photos read)
        (allows scoped photos (codes "2026/a.jpg") read)
      ≡ true)
    × (implies
          (allows scoped photos (codes "2026/a.jpg") read)
          (allows_anywhere_in scoped photos read)
        ≡ true)
    × (implies (allows_anywhere_in scoped photos read) (visible scoped photos) ≡ true)
grant_levels_example = grant_levels scoped photos (codes "2026/a.jpg") read

allows_key-allows_example :
    (allows_key (listing_limit_for (some scoped) photos) (codes "2026/a.jpg")
      ≡ allows scoped photos (codes "2026/a.jpg") read)
    × (allows_key (listing_limit_for none photos) (codes "2026/a.jpg") ≡ true)
allows_key-allows_example = allows_key-allows scoped photos (codes "2026/a.jpg")

abbrev limit : ListingLimit
limit = record { unrestricted = false; prefixes = codes "2026/" ∷ [] }

under_common : has_prefix (codes "2026/a.jpg") (codes "20") ≡ true
unfolding has_prefix
under_common = refl

key_is_shown : allows_key limit (codes "2026/a.jpg") ≡ true
unfolding allows_key has_prefix
key_is_shown = refl

allows_common_prefix-allows_key_example : allows_common_prefix limit (codes "20") ≡ true
allows_common_prefix-allows_key_example =
    allows_common_prefix-allows_key limit (codes "20") (codes "2026/a.jpg") under_common
      key_is_shown

narrow_sound_example :
    (allows_key limit (codes "2026/a.jpg") && has_prefix (codes "2026/a.jpg") (codes "20")) ≡ (
      allows_key limit (codes "2026/a.jpg")
      && has_prefix (codes "2026/a.jpg") (narrow limit (codes "20")))
narrow_sound_example = narrow_sound limit (codes "20") (codes "2026/a.jpg")

validate_bucket_name_iff_example :
    (validate_bucket_name (codes "my.bucket-1") ≡ none) ↔ IsBucketName (codes "my.bucket-1")
validate_bucket_name_iff_example = validate_bucket_name_iff (codes "my.bucket-1")

percent_decode-uri_encode_example :
    percent_decode (uri_encode (codes "a b/%~") false) ≡ some (codes "a b/%~")
percent_decode-uri_encode_example = percent_decode-uri_encode (codes "a b/%~") false refl

-- A parser of dates that reads the first byte as the time.
abbrev first_byte : Bytes → Option ℕ
first_byte [] = none
first_byte (c ∷ s) = some c

abbrev headers : Headers
headers = record {
  if_match = codes "*";
  if_unmodified_since = 5 ∷ [];
  if_none_match = codes "*";
  if_modified_since = 9 ∷ [];
}

match_is_present : bytes_eq headers.if_match [] ≡ false
unfolding bytes_eq
match_is_present = refl

if_match_precedence_example :
    check_preconditions first_byte
      (record headers { if_unmodified_since = 7 ∷ [] })
      get
      (codes "aa")
      6
    ≡ check_preconditions first_byte headers get (codes "aa") 6
if_match_precedence_example =
    if_match_precedence first_byte headers get (codes "aa") 6 (7 ∷ []) match_is_present

if_none_match_precedence_example :
    check_preconditions first_byte
      (record headers { if_modified_since = 1 ∷ [] })
      get
      (codes "aa")
      6
    ≡ check_preconditions first_byte headers get (codes "aa") 6
if_none_match_precedence_example =
    if_none_match_precedence first_byte headers get (codes "aa") 6 (1 ∷ []) match_is_present
