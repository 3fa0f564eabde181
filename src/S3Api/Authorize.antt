-- ===== src/S3Api/Authorize.antt =====
-- internal/s3api/authorize.go: the check of every route, and what a listing may show.
pub mod Levels
pub mod Listings
use infra_lightwight_s3_serv.Prelude.{
  ℕ, ◌==◌, Bool, true, false, not, ◌&&◌, ◌||◌, Bytes, List, [], ◌∷◌, has_prefix, any, length,
  Option, none, some, if◌then◌else◌,
}
use infra_lightwight_s3_serv.Db.Grants.{
  Permission, Grant, allows, allows_anywhere_in, allows_whole_bucket, readable_prefixes,
}

pub data Breadth : Type 0 where
  reaches_object reaches_somewhere reaches_everything : Breadth

pub record Access : Type 0 where
  pub permission : Permission
  pub breadth : Breadth

-- allowed, by the breadth of the operation.
unfoldable pub allowed_at : Grant → Bytes → Bytes → Permission → Breadth → Bool
allowed_at g bucket key perm reaches_everything = allows_whole_bucket g bucket perm
allowed_at g bucket key perm reaches_somewhere = allows_anywhere_in g bucket perm
allowed_at g bucket key perm reaches_object = allows g bucket key perm

unfoldable pub allowed : Grant → Bytes → Bytes → Access → Bool
unfolding allowed_at
allowed g bucket key want = allowed_at g bucket key want.permission want.breadth

-- What permit answers: `none` is a request with no identity.
unfoldable pub permit : Option Grant → Bytes → Bytes → Access → Bool
unfolding allowed
permit none bucket key want = true
permit (some g) bucket key want = allowed g bucket key want

pub record ListingLimit : Type 0 where
  pub unrestricted : Bool
  pub prefixes : List Bytes

unfoldable pub limit_of : Option (List Bytes) → ListingLimit
limit_of none = record { unrestricted = true; prefixes = [] }
limit_of (some ps) = record { unrestricted = false; prefixes = ps }

unfoldable pub listing_limit_for : Option Grant → Bytes → ListingLimit
unfolding limit_of readable_prefixes
listing_limit_for none bucket = record { unrestricted = true; prefixes = [] }
listing_limit_for (some g) bucket = limit_of (readable_prefixes g bucket)

unfoldable pub shows_nothing : ListingLimit → Bool
shows_nothing l = not l.unrestricted && length l.prefixes == 0

unfoldable pub allows_key : ListingLimit → Bytes → Bool
allows_key l key = if l.unrestricted then true else any (λ p. has_prefix key p) l.prefixes

unfoldable pub allows_common_prefix : ListingLimit → Bytes → Bool
allows_common_prefix l common =
    if l.unrestricted
    then true
    else any (λ p. has_prefix common p || has_prefix p common) l.prefixes

-- The branch of narrow on a single prefix.
unfoldable pub narrow_to : List Bytes → Bytes → Bytes
narrow_to (only ∷ []) requested = if has_prefix only requested then only else requested
narrow_to _ requested = requested

unfoldable pub narrow : ListingLimit → Bytes → Bytes
unfolding narrow_to
narrow l requested = if l.unrestricted then requested else narrow_to l.prefixes requested
