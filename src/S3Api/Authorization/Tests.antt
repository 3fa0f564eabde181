-- ===== src/S3Api/Authorization/Tests.antt =====
-- A header of an SDK.
use infra_lightwight_s3_serv.Prelude.{
  ◌↔◌, ◌≡◌, Bytes, [], ◌∷◌, bytes_eq, codes, cut, split, trim_space, trim_left, trim_right, trim_by,
  is_space, ok, err, refl,
}
use infra_lightwight_s3_serv.S3Api.Authorization.{
  AuthHeader, ParsedCredential, malformed_authorization, parse_credential, from_fields,
  parse_authorization, components, component,
}
use infra_lightwight_s3_serv.S3Api.Authorization.Fields.{
  IsCredential, credential_string, parse_credential_iff,
}

abbrev written : Bytes
written = codes "AKIA1/20260822/us-east-1/s3/aws4_request"

abbrev credential : ParsedCredential
credential = record {
  access_key_id = codes "AKIA1";
  scope = record { date = codes "20260822"; region = codes "us-east-1"; service = codes "s3" };
}

abbrev header : AuthHeader
header = record {
  credential = credential;
  signed_headers = codes "host" ∷ codes "x-amz-date" ∷ [];
  signature = codes "abc123";
}

-- The four fields and the terminator, without the id.
five_are_wanted :
    parse_credential (codes "20260822/us-east-1/s3/aws4_request") ≡ err malformed_authorization
unfolding parse_credential split from_fields
five_are_wanted = refl

-- A header without a signature.
three_are_wanted :
    parse_authorization (
      codes
        "AWS4-HMAC-SHA256 Credential=AKIA1/20260822/us-east-1/s3/aws4_request,SignedHeaders=host")
    ≡ err malformed_authorization
unfolding parse_authorization components component parse_credential split from_fields cut trim_space
    trim_left trim_right trim_by is_space bytes_eq
three_are_wanted = refl

parse_credential_iff_example :
    (parse_credential written ≡ ok credential)
    ↔ (IsCredential credential × (written ≡ credential_string credential))
parse_credential_iff_example = parse_credential_iff written credential
