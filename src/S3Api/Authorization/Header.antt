-- ===== src/S3Api/Authorization/Header.antt =====
-- internal/s3api/sigv4.go: a header that a client writes is read back.
use infra_lightwight_s3_serv.Prelude.{
  Bytes, List, [], ◌∷◌, ◌++◌, false, some, Result, codes, join, ◌≡◌,
}
use infra_lightwight_s3_serv.S3Api.Signature.{algorithm}
use infra_lightwight_s3_serv.S3Api.Authorization.{AuthError, AuthHeader, Met, is_empty, all_met}
use infra_lightwight_s3_serv.S3Api.Authorization.Spaces.{has_space}
use infra_lightwight_s3_serv.S3Api.Authorization.Fields.{
  Without, AllWithout, IsCredential, credential_string,
}

-- A value of the header: some bytes, without white space and commas.
abbrev pub IsValue : Bytes → Type 0
IsValue s = (is_empty s ≡ false) × (has_space s ≡ false) × Without b',' s

abbrev pub IsHeader : AuthHeader → Type 0
IsHeader a =
    IsCredential a.credential
    × IsValue (credential_string a.credential)
    × AllWithout b';' a.signed_headers
    × IsValue (join (b';' ∷ []) a.signed_headers)
    × IsValue a.signature

-- NAME=value.
abbrev named_value : Bytes → Bytes → Bytes
named_value name value = name ++ (b'=' ∷ value)

abbrev pub authorization_string : AuthHeader → Bytes
authorization_string a =
    algorithm
    ++ (32
        ∷ (named_value (codes "Credential") (credential_string a.credential)
            ++ (b','
                ∷ 32
                ∷ (named_value (codes "SignedHeaders") (join (b';' ∷ []) a.signed_headers)
                    ++ (b',' ∷ 32 ∷ named_value (codes "Signature") a.signature)))))

abbrev parts_of : AuthHeader → List Bytes
parts_of a =
    named_value (codes "Credential") (credential_string a.credential)
    ∷ (32 ∷ named_value (codes "SignedHeaders") (join (b';' ∷ []) a.signed_headers))
    ∷ (32 ∷ named_value (codes "Signature") a.signature)
    ∷ []

abbrev all_of : AuthHeader → Met
all_of a = record {
  credential = some a.credential;
  signed_headers = some a.signed_headers;
  signature = some a.signature;
}

abbrev finished : Met → Result AuthError AuthHeader
finished met = all_met met.credential met.signed_headers met.signature
