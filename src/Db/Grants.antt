-- ===== src/Db/Grants.antt =====
-- internal/db/grants.go: what an access key may do.
pub mod Validation
use infra_lightwight_s3_serv.Prelude.{
  ℕ, ◌+◌, ltb, ◌==◌, Bool, true, false, not, ◌&&◌, ◌||◌, Bytes, List, [], ◌∷◌, ◌++◌, bytes_eq,
  has_prefix, any, length, Option, none, some, Result, ok, err, if◌then◌else◌,
}

-- `other` is any string that is none of the constants.
pub data Permission : Type 0 where
  read write delete : Permission
  other : Bytes → Permission

unfoldable pub same_permission : Permission → Permission → Bool
same_permission read read = true
same_permission write write = true
same_permission delete delete = true
same_permission (other a) (other b) = bytes_eq a b
same_permission _ _ = false

abbrev pub all_permissions : List Permission
all_permissions = read ∷ write ∷ delete ∷ []

unfoldable pub valid_permission : Permission → Bool
unfolding same_permission
valid_permission p = any (λ q. same_permission q p) all_permissions

pub record GrantRule : Type 0 where
  pub bucket : Bytes
  pub prefix : Bytes
  pub permissions : List Permission

pub record Grant : Type 0 where
  pub unrestricted : Bool
  pub rules : List GrantRule

unfoldable pub grants : GrantRule → Permission → Bool
unfolding same_permission
grants r perm = any (λ q. same_permission q perm) r.permissions

unfoldable pub covers : GrantRule → Bytes → Bool
covers r key = has_prefix key r.prefix

unfoldable pub unrestricted_grant : Grant
unrestricted_grant = record { unrestricted = true; rules = [] }

unfoldable pub allows : Grant → Bytes → Bytes → Permission → Bool
unfolding covers grants
allows g bucket key perm =
    if g.unrestricted
    then true
    else any (λ (r : GrantRule). bytes_eq r.bucket bucket && covers r key && grants r perm) g.rules

unfoldable pub allows_anywhere_in : Grant → Bytes → Permission → Bool
unfolding grants
allows_anywhere_in g bucket perm =
    if g.unrestricted
    then true
    else any (λ (r : GrantRule). bytes_eq r.bucket bucket && grants r perm) g.rules

unfoldable pub allows_whole_bucket : Grant → Bytes → Permission → Bool
unfolding grants
allows_whole_bucket g bucket perm =
    if g.unrestricted
    then true
    else any (λ (r : GrantRule). bytes_eq r.bucket bucket && bytes_eq r.prefix [] && grants r perm)
        g.rules

unfoldable pub visible : Grant → Bytes → Bool
visible g bucket =
    if g.unrestricted
    then true
    else any (λ (r : GrantRule). bytes_eq r.bucket bucket && ltb 0 (length r.permissions)) g.rules

-- The loop of ReadablePrefixes; `none` is the nil slice.
unfoldable pub collect_prefixes : Bytes → List GrantRule → List Bytes → Option (List Bytes)
unfolding grants
collect_prefixes bucket [] prefixes = some prefixes
collect_prefixes bucket (r ∷ rs) prefixes =
    let kept = collect_prefixes bucket rs prefixes in
    let added = collect_prefixes bucket rs (prefixes ++ r.prefix ∷ []) in
    if not (bytes_eq r.bucket bucket) || not (grants r read)
    then kept
    else if bytes_eq r.prefix []
    then none
    else if not (any (λ p. bytes_eq p r.prefix) prefixes)
    then added
    else kept

unfoldable pub readable_prefixes : Grant → Bytes → Option (List Bytes)
unfolding collect_prefixes
readable_prefixes g bucket = if g.unrestricted then none else collect_prefixes bucket g.rules []

pub data GrantError : Type 0 where
  unrestricted_with_rules : GrantError
  no_bucket bucket_too_long no_permissions not_a_permission : ℕ → GrantError

unfoldable pub first_invalid : ℕ → List Permission → Result GrantError (Unit {0})
unfolding valid_permission
first_invalid i [] = ok tt
first_invalid i (p ∷ ps) =
    if not (valid_permission p) then err (not_a_permission i) else first_invalid i ps

unfoldable pub validate_rule : ℕ → GrantRule → Result GrantError (Unit {0})
unfolding first_invalid
validate_rule i r =
    if bytes_eq r.bucket []
    then err (no_bucket i)
    else if ltb 63 (length r.bucket)
    then err (bucket_too_long i)
    else if length r.permissions == 0
    then err (no_permissions i)
    else first_invalid i r.permissions

-- The rules are numbered from 1.
unfoldable pub validate_rules : ℕ → List GrantRule → Result GrantError (Unit {0})
unfolding validate_rule
validate_rules i [] = ok tt
validate_rules i (r ∷ rs) =
    let rest = validate_rules (i + 1) rs in elim (validate_rule i r) [ ok u ↦ rest | err e ↦ err e ]

unfoldable pub validate : Grant → Result GrantError (Unit {0})
unfolding validate_rules
validate g =
    if g.unrestricted
    then (if ltb 0 (length g.rules) then err unrestricted_with_rules else ok tt)
    else validate_rules 1 g.rules
