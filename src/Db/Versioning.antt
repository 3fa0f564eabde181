-- ===== src/Db/Versioning.antt =====
-- internal/db/versioning_state.go: the three states of a bucket, and the spelling of version ids.
use infra_lightwight_s3_serv.Prelude.{
  Bool, true, false, Bytes, [], bytes_eq, codes, Result, ok, err, if◌then◌else◌,
}

-- `other` is any string that is none of the constants.
pub data VersioningState : Type 0 where
  unversioned enabled suspended : VersioningState
  other : Bytes → VersioningState

unfoldable pub versioned : VersioningState → Bool
versioned enabled = true
versioned _ = false

unfoldable pub configured : VersioningState → Bool
configured unversioned = false
configured _ = true

unfoldable pub valid : VersioningState → Bool
valid (other _) = false
valid _ = true

pub data TransitionError : Type 0 where
  cannot_be_turned_off : TransitionError
  not_a_state : Bytes → TransitionError

unfoldable pub transition_to :
    VersioningState → VersioningState → Result TransitionError VersioningState
unfolding configured
transition_to v enabled = ok enabled
transition_to v suspended = ok suspended
transition_to v unversioned = if configured v then err cannot_be_turned_off else ok v
transition_to v (other name) = err (not_a_state name)

abbrev pub null_version_id : Bytes
null_version_id = codes "null"

unfoldable pub external_version_id : Bytes → Bytes
external_version_id stored = if bytes_eq stored [] then null_version_id else stored

unfoldable pub internal_version_id : Bytes → Bytes
internal_version_id external = if bytes_eq external null_version_id then [] else external
