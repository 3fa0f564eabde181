-- ===== src/S3Api/Signature.antt =====
-- internal/s3api/sigv4.go: the credential scope, the string to sign and the signing key, over the hash
-- functions as parameters.
use infra_lightwight_s3_serv.Prelude.{Bytes, [], ◌∷◌, ◌++◌, codes, join, hex_encode}

abbrev pub algorithm : Bytes
algorithm = codes "AWS4-HMAC-SHA256"

abbrev pub scope_terminator : Bytes
scope_terminator = codes "aws4_request"

pub record Scope : Type 0 where
  pub date : Bytes
  pub region : Bytes
  pub service : Bytes

-- Scope.String.
unfoldable pub scope_string : Scope → Bytes
unfolding join
scope_string s = join (codes "/") (s.date ∷ s.region ∷ s.service ∷ scope_terminator ∷ [])

-- The third-party hash functions, on bytes.
pub record Hashes : Type 0 where
  pub sha256 : Bytes → Bytes
  pub hmac : Bytes → Bytes → Bytes

module _ (h : Hashes) where
  -- The time is given as iso8601 writes it.
  unfoldable pub string_to_sign : Bytes → Scope → Bytes → Bytes
  unfolding scope_string join hex_encode
  string_to_sign timestamp scope canonical_request =
      join (10 ∷ [])
        (algorithm ∷ timestamp ∷ scope_string scope ∷ hex_encode (h.sha256 canonical_request) ∷ [])

  unfoldable pub signing_key : Bytes → Scope → Bytes
  signing_key secret_key scope =
      h.hmac
        (h.hmac (h.hmac (h.hmac (codes "AWS4" ++ secret_key) scope.date) scope.region)
          scope.service)
        scope_terminator

  unfoldable pub sign : Bytes → Bytes → Bytes
  unfolding hex_encode
  sign key text = hex_encode (h.hmac key text)
