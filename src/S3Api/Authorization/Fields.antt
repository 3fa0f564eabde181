-- ===== src/S3Api/Authorization/Fields.antt =====
-- internal/s3api/sigv4.go: which strings are a credential.
use infra_lightwight_s3_serv.Prelude.{
  ℕ, Bytes, List, [], ◌∷◌, ◌++◌, Bool, true, false, not, ◌||◌, ◌==◌, Result, ok, err, bytes_eq,
  bytes_eq_iff, bytes_eq_refl, join, split, any, ok-injective, if◌then◌else◌, ◌≡◌, ◌↔◌, refl, ap,
  sym, ◌∙◌, subst, arith, Bool-cases, inl, inr,
}
use infra_lightwight_s3_serv.S3Api.Signature.{scope_string, scope_terminator}
use infra_lightwight_s3_serv.S3Api.Authorization.{
  AuthError, malformed_authorization, ParsedCredential, is_empty, five_fields, from_fields,
  parse_credential,
}

-- Not in the string.
abbrev pub Without : ℕ → Bytes → Type 0
Without c s = any (λ b. b == c) s ≡ false

abbrev pub AllWithout : ℕ → List Bytes → Type 0
AllWithout c [] = Unit
AllWithout c (f ∷ fs) = Without c f × AllWithout c fs

pub split-Without : (c : ℕ) (s : Bytes) → Without c s → split c s ≡ (s ∷ [])
unfolding split
split-Without c [] h = refl
split-Without c (b ∷ s) h = ground (arith, split-Without c s)

pub split-append : (c : ℕ) (s t : Bytes) → Without c s → split c (s ++ (c ∷ t)) ≡ (s ∷ split c t)
unfolding split
split-append c [] t h = ground arith
split-append c (b ∷ s) t h = ground (arith, split-append c s t)

pub split-join :
    (c : ℕ) (f : Bytes) (fs : List Bytes)
    → AllWithout c (f ∷ fs)
    → split c (join (c ∷ []) (f ∷ fs)) ≡ (f ∷ fs)
unfolding join
split-join c f [] (h, k) = split-Without c f h
split-join c f (g ∷ fs) (h, k) =
    split-append c f (join (c ∷ []) (g ∷ fs)) h ∙ ap (◌∷◌ f) (split-join c g fs k)

-- The first field with one more byte, as split builds it.
abbrev grown : ℕ → List Bytes → List Bytes
grown b [] = (b ∷ []) ∷ []
grown b (f ∷ fs) = (b ∷ f) ∷ fs

split-grown : (c b : ℕ) (s : Bytes) → (b == c) ≡ false → split c (b ∷ s) ≡ grown b (split c s)
unfolding split
split-grown c b s h = elim (split c s) [ [] ↦ rw h refl | f ∷ fs ↦ rw h refl ]

split_cut : (c b : ℕ) (s : Bytes) → (b == c) ≡ true → split c (b ∷ s) ≡ ([] ∷ split c s)
unfolding split
split_cut c b s h = rw h refl

grown-AllWithout :
    (c b : ℕ) (fs : List Bytes) → (b == c) ≡ false → AllWithout c fs → AllWithout c (grown b fs)
grown-AllWithout c b [] h k = (ground (arith, h), tt)
grown-AllWithout c b (f ∷ fs) h (k, l) = (ground (arith, h, k), l)

pub split-AllWithout : (c : ℕ) (s : Bytes) → AllWithout c (split c s)
unfolding split
split-AllWithout c [] = (refl, tt)
split-AllWithout c (b ∷ s) = elim (Bool-cases (b == c)) [
  | inl e ↦ subst (AllWithout c) (sym (split_cut c b s e)) (refl, split-AllWithout c s)
  | inr e ↦
      subst (AllWithout c) (sym (split-grown c b s e))
        (grown-AllWithout c b (split c s) e (split-AllWithout c s))
]

-- A list that split can build.
abbrev IsSplit : List Bytes → Type 0
IsSplit [] = ⊥
IsSplit (f ∷ fs) = Unit

split-IsSplit : (c : ℕ) (s : Bytes) → IsSplit (split c s)
unfolding split
split-IsSplit c [] = tt
split-IsSplit c (b ∷ s) = elim (Bool-cases (b == c)) [
  | inl e ↦ subst IsSplit (sym (split_cut c b s e)) tt
  | inr e ↦ subst IsSplit (sym (split-grown c b s e)) (still (split c s))
]
  where
    still : (fs : List Bytes) → IsSplit (grown b fs)
    still [] = tt
    still (f ∷ fs) = tt

join-grown :
    (c b : ℕ) (fs : List Bytes) → IsSplit fs → join (c ∷ []) (grown b fs) ≡ (b ∷ join (c ∷ []) fs)
unfolding join
join-grown c b [] h = absurd h
join-grown c b (f ∷ []) h = refl
join-grown c b (f ∷ g ∷ fs) h = refl

join-cut : (c : ℕ) (fs : List Bytes) → IsSplit fs → join (c ∷ []) ([] ∷ fs) ≡ (c ∷ join (c ∷ []) fs)
unfolding join
join-cut c [] h = absurd h
join-cut c (f ∷ fs) h = refl

pub join-split : (c : ℕ) (s : Bytes) → join (c ∷ []) (split c s) ≡ s
unfolding split join
join-split c [] = refl
join-split c (b ∷ s) = elim (Bool-cases (b == c)) [
  | inl e ↦
      let same : b ≡ c = ground arith in
      ap (join (c ∷ [])) (split_cut c b s e)
      ∙ join-cut c (split c s) (split-IsSplit c s)
      ∙ ap (λ x. c ∷ x) (join-split c s)
      ∙ ap (λ x. x ∷ s) (sym same)
  | inr e ↦
      ap (join (c ∷ [])) (split-grown c b s e)
      ∙ join-grown c b (split c s) (split-IsSplit c s)
      ∙ ap (λ x. b ∷ x) (join-split c s)
]

-- A field of a credential: some bytes, none of them a slash.
abbrev pub IsField : Bytes → Type 0
IsField s = (is_empty s ≡ false) × Without b'/' s

abbrev pub credential_string : ParsedCredential → Bytes
credential_string c = c.access_key_id ++ (b'/' ∷ scope_string c.scope)

abbrev pub IsCredential : ParsedCredential → Type 0
IsCredential c =
    IsField c.access_key_id
    × IsField c.scope.date
    × IsField c.scope.region
    × IsField c.scope.service

credential_string-join :
    (c : ParsedCredential)
    → credential_string c
      ≡ join (b'/' ∷ []) (
          c.access_key_id ∷ c.scope.date ∷ c.scope.region ∷ c.scope.service ∷ scope_terminator ∷ [])
unfolding scope_string join
credential_string-join c = refl

terminator-Without : Without b'/' scope_terminator
terminator-Without = refl

pub parse_credential_string :
    (c : ParsedCredential) → IsCredential c → parse_credential (credential_string c) ≡ ok c
unfolding parse_credential from_fields
parse_credential_string c ((k, kw), (d, dw), (r, rw'), (s, sw)) =
    ap from_fields (
      ap (split b'/') (credential_string-join c)
      ∙ split-join b'/' c.access_key_id
          (c.scope.date ∷ c.scope.region ∷ c.scope.service ∷ scope_terminator ∷ [])
          (kw, (dw, (rw', (sw, (terminator-Without, tt))))))
    ∙ rw (bytes_eq_refl scope_terminator, k, d, r, s) refl

abbrev fields_of : ParsedCredential → List Bytes
fields_of c =
    c.access_key_id ∷ c.scope.date ∷ c.scope.region ∷ c.scope.service ∷ scope_terminator ∷ []

abbrev IsFilled : ParsedCredential → Type 0
IsFilled c =
    (is_empty c.access_key_id ≡ false)
    × (is_empty c.scope.date ≡ false)
    × (is_empty c.scope.region ≡ false)
    × (is_empty c.scope.service ≡ false)

guard_ok :
    (b : Bool) (m : Result AuthError ParsedCredential) (p : ParsedCredential)
    → (if b then err malformed_authorization else m) ≡ ok p
    → (b ≡ false) × (m ≡ ok p)
guard_ok true m p h = absurd (cc)
guard_ok false m p h = (refl, h)

five_fields-ok :
    (k d r s t : Bytes) (p : ParsedCredential)
    → five_fields k d r s t ≡ ok p
    → ((k ∷ d ∷ r ∷ s ∷ t ∷ []) ≡ fields_of p) × IsFilled p
five_fields-ok k d r s t p h =
    let (same, h1) = guard_ok (not (bytes_eq t scope_terminator)) _ p h in
    let (filled, h2) = guard_ok (is_empty k || (is_empty d || (is_empty r || is_empty s))) _ p h1 in
    let e = ok-injective h2 in
    let ends : t ≡ scope_terminator = (bytes_eq_iff t scope_terminator).0 (ground arith) in
    (
      ap (λ x. k ∷ d ∷ r ∷ s ∷ x ∷ []) ends ∙ ap fields_of e,
      subst IsFilled e (ground arith, ground arith, ground arith, ground arith),
    )

from_fields-ok :
    (fs : List Bytes) (p : ParsedCredential)
    → from_fields fs ≡ ok p
    → (fs ≡ fields_of p) × IsFilled p
unfolding from_fields
from_fields-ok [] p h = absurd (cc)
from_fields-ok (a ∷ []) p h = absurd (cc)
from_fields-ok (a ∷ b ∷ []) p h = absurd (cc)
from_fields-ok (a ∷ b ∷ c ∷ []) p h = absurd (cc)
from_fields-ok (a ∷ b ∷ c ∷ d ∷ []) p h = absurd (cc)
from_fields-ok (a ∷ b ∷ c ∷ d ∷ e ∷ []) p h = five_fields-ok a b c d e p h
from_fields-ok (a ∷ b ∷ c ∷ d ∷ e ∷ f ∷ fs) p h = absurd (cc)

parse_credential-ok :
    (value : Bytes) (c : ParsedCredential)
    → parse_credential value ≡ ok c
    → IsCredential c × (value ≡ credential_string c)
unfolding parse_credential
parse_credential-ok value c h =
    let (e, (k, d, r, s)) = from_fields-ok (split b'/' value) c h in
    let (kw, (dw, (rw', (sw, rest)))) = subst (AllWithout b'/') e (split-AllWithout b'/' value) in
    (
      ((k, kw), (d, dw), (r, rw'), (s, sw)),
      sym (join-split b'/' value) ∙ ap (join (b'/' ∷ [])) e ∙ sym (credential_string-join c),
    )

-- parseCredential accepts exactly the strings that are an access key id, a slash and a scope as
-- Scope.String writes it, where the id, the date, the region and the service are not empty and hold
-- no slash, and it returns these four.
pub parse_credential_iff :
    (value : Bytes) (c : ParsedCredential)
    → (parse_credential value ≡ ok c) ↔ (IsCredential c × (value ≡ credential_string c))
parse_credential_iff value c = (
  parse_credential-ok value c,
  λ (fields, e). ap parse_credential e ∙ parse_credential_string c fields,
)
