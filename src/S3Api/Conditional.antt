-- ===== src/S3Api/Conditional.antt =====
-- internal/s3api/conditional.go: the conditional headers of a request. An absent header is empty; the
-- parser of HTTP dates is a parameter, and times are in seconds.
use infra_lightwight_s3_serv.Prelude.{
  ℕ, ltb, Bool, true, false, not, ◌&&◌, Bytes, [], ◌∷◌, ◌++◌, bytes_eq, codes, has_prefix,
  trim_prefix, split, trim_space, any, Option, none, some, if◌then◌else◌, ◌≡◌,
}

pub record Headers : Type 0 where
  pub if_match : Bytes
  pub if_unmodified_since : Bytes
  pub if_none_match : Bytes
  pub if_modified_since : Bytes

abbrev quote : Bytes
quote = 34 ∷ []

-- quoteETag of objects.go.
unfoldable pub quote_etag : Bytes → Bytes
quote_etag etag = if has_prefix etag quote then etag else (quote ++ etag) ++ quote

-- One entry of the comma-separated list.
unfoldable pub entry_matches : Bytes → Bool → Bytes → Bool
entry_matches candidate allow_weak raw =
    let entry = trim_space raw in
    if has_prefix entry (codes "W/")
    then (if not allow_weak then false else bytes_eq (trim_prefix entry (codes "W/")) candidate)
    else bytes_eq entry candidate

unfoldable pub etag_matches : Bytes → Bytes → Bool → Bool
unfolding entry_matches
etag_matches header candidate allow_weak =
    let trimmed = trim_space header in
    if bytes_eq trimmed (codes "*")
    then true
    else any (entry_matches candidate allow_weak) (split b',' trimmed)

pub data Method : Type 0 where
  get head other : Method

unfoldable pub is_read : Method → Bool
is_read get = true
is_read head = true
is_read other = false

-- http.StatusNotModified, http.StatusPreconditionFailed.
abbrev pub not_modified : ℕ
not_modified = 304

abbrev pub precondition_failed : ℕ
precondition_failed = 412

module _ (parse_time : Bytes → Option ℕ) where
  -- err == nil && modified.After(since), and err == nil && !modified.After(since).
  unfoldable pub modified_after : ℕ → Bytes → Bool
  modified_after modified header = elim (parse_time header) [
    | none ↦ false
    | some since ↦ ltb since modified
  ]

  unfoldable pub unmodified_since : ℕ → Bytes → Bool
  unmodified_since modified header = elim (parse_time header) [
    | none ↦ false
    | some since ↦ not (ltb since modified)
  ]

  -- The first test: whether the request fails.
  unfoldable pub match_fails : Headers → Bytes → ℕ → Bool
  unfolding etag_matches modified_after
  match_fails h etag modified =
      if not (bytes_eq h.if_match [])
      then not (etag_matches h.if_match etag false)
      else if not (bytes_eq h.if_unmodified_since [])
      then modified_after modified h.if_unmodified_since
      else false

  -- The second test: the status, 0 to proceed.
  unfoldable pub none_match_status : Headers → Method → Bytes → ℕ → ℕ
  unfolding etag_matches unmodified_since is_read
  none_match_status h method etag modified =
      if not (bytes_eq h.if_none_match [])
      then (if etag_matches h.if_none_match etag true
          then (if is_read method then not_modified else precondition_failed)
          else 0)
      else if not (bytes_eq h.if_modified_since [])
          && is_read method
          && unmodified_since modified h.if_modified_since
      then not_modified
      else 0

  -- checkPreconditions of an object with this ETag and modification time.
  unfoldable pub check_preconditions : Headers → Method → Bytes → ℕ → ℕ
  unfolding quote_etag match_fails none_match_status
  check_preconditions h method etag modified =
      if match_fails h (quote_etag etag) modified
      then precondition_failed
      else none_match_status h method (quote_etag etag) modified

  -- Where If-Match is present, If-Unmodified-Since has no effect.
  pub if_match_precedence :
      (h : Headers) (method : Method) (etag : Bytes) (modified : ℕ) (date : Bytes)
      → bytes_eq h.if_match [] ≡ false
      → check_preconditions (record h { if_unmodified_since = date }) method etag modified
        ≡ check_preconditions h method etag modified
  unfolding check_preconditions match_fails none_match_status
  if_match_precedence h method etag modified date e = rw e

  -- Where If-None-Match is present, If-Modified-Since has no effect.
  pub if_none_match_precedence :
      (h : Headers) (method : Method) (etag : Bytes) (modified : ℕ) (date : Bytes)
      → bytes_eq h.if_none_match [] ≡ false
      → check_preconditions (record h { if_modified_since = date }) method etag modified
        ≡ check_preconditions h method etag modified
  unfolding check_preconditions match_fails none_match_status
  if_none_match_precedence h method etag modified date e = rw e
