-- ===== src/S3Api/Authorization.antt =====
-- internal/s3api/sigv4.go: the Authorization header and the credential in it.
pub mod Fields
pub mod Spaces
pub mod Header
mod Tests
use infra_lightwight_s3_serv.Prelude.{
  Bytes, List, [], ◌∷◌, Bool, true, false, not, ◌||◌, Option, none, some, Result, ok, err, ◌>>=◌,
  bytes_eq, codes, cut, split, trim_space, if◌then◌else◌,
}
use infra_lightwight_s3_serv.S3Api.Signature.{Scope, algorithm, scope_terminator}

pub data AuthError : Type 0 where
  malformed_authorization unsupported_algorithm : AuthError

pub record ParsedCredential : Type 0 where
  pub access_key_id : Bytes
  pub scope : Scope

abbrev pub is_empty : Bytes → Bool
is_empty [] = true
is_empty (b ∷ bs) = false

-- The conditions of parseCredential on the five fields.
abbrev pub five_fields : Bytes → Bytes → Bytes → Bytes → Bytes → Result AuthError ParsedCredential
five_fields access_key_id date region service terminator =
    if not (bytes_eq terminator scope_terminator)
    then err malformed_authorization
    else if is_empty access_key_id || (is_empty date || (is_empty region || is_empty service))
    then err malformed_authorization
    else ok (record {
      access_key_id = access_key_id;
      scope = record { date = date; region = region; service = service };
    })

unfoldable pub from_fields : List Bytes → Result AuthError ParsedCredential
from_fields [] = err malformed_authorization
from_fields (a ∷ []) = err malformed_authorization
from_fields (a ∷ b ∷ []) = err malformed_authorization
from_fields (a ∷ b ∷ c ∷ []) = err malformed_authorization
from_fields (a ∷ b ∷ c ∷ d ∷ []) = err malformed_authorization
from_fields (a ∷ b ∷ c ∷ d ∷ e ∷ []) = five_fields a b c d e
from_fields (a ∷ b ∷ c ∷ d ∷ e ∷ f ∷ fs) = err malformed_authorization

unfoldable pub parse_credential : Bytes → Result AuthError ParsedCredential
unfolding split from_fields
parse_credential value = from_fields (split b'/' value)

pub record AuthHeader : Type 0 where
  pub credential : ParsedCredential
  pub signed_headers : List Bytes
  pub signature : Bytes

-- What the loop of ParseAuthorization has met.
pub record Met : Type 0 where
  pub credential : Option ParsedCredential
  pub signed_headers : Option (List Bytes)
  pub signature : Option Bytes

abbrev pub with_credential : Met → Result AuthError ParsedCredential → Result AuthError Met
with_credential met (ok parsed) = ok (record met { credential = some parsed })
with_credential met (err e) = err e

unfoldable pub component : Bytes → Bytes → Met → Result AuthError Met
unfolding parse_credential split
component key value met =
    if bytes_eq key (codes "Credential")
    then with_credential met (parse_credential value)
    else if bytes_eq key (codes "SignedHeaders")
    then (if is_empty value
        then err malformed_authorization
        else ok (record met { signed_headers = some (split b';' value) }))
    else if bytes_eq key (codes "Signature")
    then (if is_empty value
        then err malformed_authorization
        else ok (record met { signature = some value }))
    else ok met

abbrev pub keyed : Bytes × Option Bytes → Met → Result AuthError Met
keyed (key, none) met = err malformed_authorization
keyed (key, some value) met = component key value met

unfoldable pub components : List Bytes → Met → Result AuthError Met
unfolding component cut trim_space
components [] met = ok met
components (part ∷ parts) met = keyed (cut b'=' (trim_space part)) met >>= components parts

abbrev pub nothing_met : Met
nothing_met = record { credential = none; signed_headers = none; signature = none }

-- The check at the end of ParseAuthorization.
abbrev pub all_met :
    Option ParsedCredential → Option (List Bytes) → Option Bytes → Result AuthError AuthHeader
all_met (some credential) (some signed_headers) (some signature) =
    ok (record { credential = credential; signed_headers = signed_headers; signature = signature })
all_met none h s = err malformed_authorization
all_met (some c) none s = err malformed_authorization
all_met (some c) (some h) none = err malformed_authorization

abbrev pub with_algorithm : Bytes × Option Bytes → Result AuthError AuthHeader
with_algorithm (scheme, none) = err malformed_authorization
with_algorithm (scheme, some rest) =
    if not (bytes_eq scheme algorithm)
    then err unsupported_algorithm
    else (components (split b',' rest) nothing_met >>= λ (met : Met).
        all_met met.credential met.signed_headers met.signature)

unfoldable pub parse_authorization : Bytes → Result AuthError AuthHeader
unfolding components split cut
parse_authorization header = with_algorithm (cut b' ' header)
