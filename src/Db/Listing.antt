-- ===== src/Db/Listing.antt =====
-- internal/db/listing.go. Keys are compared by bytes, as the C collation of the column does. Of the
-- errors of a query the model has the one that the arguments cause, a text that the database refuses.
pub mod Range
pub mod Groups
pub mod Order
pub mod Page
pub mod Coverage
pub mod Termination
pub mod Accepted
mod Tests
use infra_lightwight_s3_serv.Prelude.{
  ℕ, suc, ◌+◌, ltb, Bool, true, false, not, ◌&&◌, Bytes, List, [], ◌∷◌, ◌++◌, bytes_eq, bytes_lt,
  last, has_prefix, has_suffix, trim_prefix, index_of, contains, ◌+◌, ◌==◌, ◌*◌, leb, ◌||◌, keep,
  take, all, any, length, Option, none, some, if◌then◌else◌, ◌≡◌, ◌↔◌, refl, arith, Bool-cases, map,
  Result, ok, err, Option-cases, ◌⊎◌, inl, inr, has_prefix_split, has_prefix-append, drop-append,
  take-append, append_assoc, ap, ◌∙◌, sym, subst,
}
use Prim.Native.Nat.{zero}
use infra_lightwight_s3_serv.Db.Rows.{Object, Tables}

-- "\U0010FFFF".
abbrev pub highest_rune : Bytes
highest_rune = 244 ∷ 143 ∷ 191 ∷ 191 ∷ []

-- What is left of a byte, given what is left of the bytes after it.
unfoldable pub raised_head : ℕ → Option Bytes → Option Bytes
raised_head c (some t) = some (c ∷ t)
raised_head c none = if ltb c 255 then some (suc c ∷ []) else none

-- The loop of prefixUpperBound, which raises the last byte that can be raised and cuts what follows.
unfoldable pub raise_last : Bytes → Option Bytes
unfolding raised_head
raise_last [] = none
raise_last (c ∷ s) = raised_head c (raise_last s)

unfoldable pub prefix_upper_bound : Bytes → Bytes
unfolding raise_last
prefix_upper_bound prefix = elim (raise_last prefix) [
  | some bound ↦ bound
  | none ↦ prefix ++ highest_rune
]

-- The WHERE clause of fetchKeyBatch.
unfoldable pub selected : Bytes → Bytes → Bytes → Object → Bool
unfolding prefix_upper_bound
selected bucket prefix after o =
    bytes_eq o.bucket_id bucket
    && bytes_lt after o.key
    && (if bytes_eq prefix []
        then true
        else not (bytes_lt o.key prefix) && bytes_lt o.key (prefix_upper_bound prefix))

-- ORDER BY key.
unfoldable pub insert_by_key : Object → List Object → List Object
insert_by_key o [] = o ∷ []
insert_by_key o (p ∷ ps) = if bytes_lt p.key o.key then p ∷ insert_by_key o ps else o ∷ p ∷ ps

unfoldable pub by_key : List Object → List Object
unfolding insert_by_key
by_key [] = []
by_key (o ∷ os) = insert_by_key o (by_key os)

-- The columns that fetchKeyBatch selects.
abbrev pub listed_row : Object → Object
listed_row o = record o { metadata = []; version_id = [] }

abbrev pub listed_rows : Tables → List Object
listed_rows db = map listed_row db.objects

pub data ListError : Type 0 where
  refused_text : ListError

-- The text parameters of the query; `accepts` says which texts the database takes.
unfoldable pub accepted_range : (Bytes → Bool) → Bytes → Bytes → Bool
unfolding prefix_upper_bound
accepted_range accepts prefix after =
    accepts after && (bytes_eq prefix [] || (accepts prefix && accepts (prefix_upper_bound prefix)))

unfoldable pub fetch_key_batch :
    (Bytes → Bool) → Tables → Bytes → Bytes → Bytes → ℕ → Result ListError (List Object)
unfolding selected by_key accepted_range
fetch_key_batch accepts db bucket prefix after limit =
    if not (accepted_range accepts prefix after)
    then err refused_text
    else ok (take limit (by_key (keep (selected bucket prefix after) (listed_rows db))))

unfoldable pub group_of : Bytes → Bytes → Bytes → Option Bytes
group_of key prefix delimiter =
    if bytes_eq delimiter [] then none else elim (index_of (trim_prefix key prefix) delimiter) [
      | none ↦ none
      | some index ↦ some (prefix ++ take (index + length delimiter) (trim_prefix key prefix))
    ]

pub record ListOptions : Type 0 where
  pub prefix : Bytes
  pub delimiter : Bytes
  pub start_after : Bytes
  pub max_keys : ℕ

pub record ListResult : Type 0 where
  pub objects : List Object
  pub common_prefixes : List Bytes
  pub is_truncated : Bool
  pub next_start_after : Bytes

-- The size of a page.
unfoldable pub page_size : ℕ → ℕ
page_size n = if n == 0 || ltb 1000 n then 1000 else n

abbrev pub count : ListResult → ℕ
count r = length r.objects + length r.common_prefixes

unfoldable pub previous_cursor : ListResult → Bytes → Bytes
previous_cursor r unconsumed = elim (last r.objects) [
  | none ↦ elim (last r.common_prefixes) [ none ↦ unconsumed | some g ↦ g ++ highest_rune ]
  | some o ↦ elim (last r.common_prefixes) [
    | none ↦ o.key
    | some g ↦ if bytes_lt g o.key then o.key else g ++ highest_rune
  ]
]

-- What the scan does at a key: the page is full, the key adds nothing or itself, or it opens a group
-- and the rest of the group is skipped.
pub data Step : Type 0 where
  full : ListResult → Step
  passed : ListResult → Step
  grouped : Bytes → ListResult → Step

unfoldable pub truncated : Bytes → ListResult → ListResult
truncated next r = record r { is_truncated = true; next_start_after = next }

abbrev pub add_object : Object → ListResult → ListResult
add_object o r = record r { objects = r.objects ++ (o ∷ []) }

abbrev pub add_prefix : Bytes → ListResult → ListResult
add_prefix g r = record r { common_prefixes = r.common_prefixes ++ (g ∷ []) }

-- The prefixes that the source keeps in seenPrefixes are those of the page.
abbrev pub seen : Bytes → ListResult → Bool
seen g r = any (bytes_eq g) r.common_prefixes

unfoldable pub scan_key : ListOptions → ListResult → Object → Step
unfolding truncated previous_cursor group_of page_size
scan_key opts r o = elim (group_of o.key opts.prefix opts.delimiter) [
  | some g ↦
      if seen g r
      then passed r
      else if leb (page_size opts.max_keys) (count r)
      then full (truncated (previous_cursor r o.key) r)
      else grouped g (add_prefix g r)
  | none ↦
      if leb (page_size opts.max_keys) (count r)
      then full (truncated (previous_cursor r o.key) r)
      else passed (add_object o r)
]

-- A batch ends the page, or leaves a cursor for the next one.
pub data Scan : Type 0 where
  finished : ListResult → Scan
  paused : Bytes → ListResult → Scan

unfoldable pub scan_batch : ListOptions → Bytes → ListResult → List Object → Scan
unfolding scan_key
scan_batch opts cursor r [] = paused cursor r
scan_batch opts cursor r (o ∷ os) = elim (scan_key opts r o) [
  | full page ↦ finished page
  | passed r' ↦ scan_batch opts o.key r' os
  | grouped g r' ↦ paused (g ++ highest_rune) r'
]

-- A full page: whether more remains.
unfoldable pub settle : List Object → Bytes → ListResult → ListResult
unfolding truncated
settle [] cursor r = r
settle (o ∷ os) cursor r = truncated cursor r

-- One round of the loop of ListObjects.
pub data Round : Type 0 where
  failed : ListError → Round
  returned : ListResult → Round
  continued : Bytes → ListResult → Round

abbrev pub settled : Result ListError (List Object) → Bytes → ListResult → Round
settled (err e) cursor r = failed e
settled (ok next) cursor r = returned (settle next cursor r)

unfoldable pub after_scan : (Bytes → Bool) → Tables → Bytes → ListOptions → ℕ → Scan → Round
unfolding fetch_key_batch settle page_size has_suffix
after_scan accepts db bucket opts batch_length (finished page) = returned page
after_scan accepts db bucket opts batch_length (paused cursor r) =
    if leb (page_size opts.max_keys) (count r)
    then settled (fetch_key_batch accepts db bucket opts.prefix cursor 1) cursor r
    else if ltb batch_length 1000 && not (has_suffix cursor highest_rune)
    then returned r
    else continued cursor r

unfoldable pub after_batch :
    (Bytes → Bool)
    → Tables
    → Bytes
    → ListOptions
    → Bytes
    → ListResult
    → Result ListError (List Object)
    → Round
unfolding scan_batch after_scan
after_batch accepts db bucket opts cursor r (err e) = failed e
after_batch accepts db bucket opts cursor r (ok []) = returned r
after_batch accepts db bucket opts cursor r (ok (o ∷ os)) =
    after_scan accepts db bucket opts (length (o ∷ os)) (scan_batch opts cursor r (o ∷ os))

-- The loop: none where the fuel runs out.
unfoldable pub list_loop :
    (Bytes → Bool)
    → Tables
    → Bytes
    → ListOptions
    → ℕ
    → Bytes
    → ListResult
    → Option (Result ListError ListResult)
unfolding fetch_key_batch after_batch
list_loop accepts db bucket opts zero cursor r = none
list_loop accepts db bucket opts (suc fuel) cursor r =
    elim (after_batch accepts db bucket opts cursor r
      (fetch_key_batch accepts db bucket opts.prefix cursor 1000)) [
        | failed e ↦ some (err e)
        | returned page ↦ some (ok page)
        | continued cursor' r' ↦ list_loop accepts db bucket opts fuel cursor' r'
      ]

abbrev pub empty_page : ListResult
empty_page = record {
  objects = [];
  common_prefixes = [];
  is_truncated = false;
  next_start_after = [];
}

-- Each round moves the cursor past a row or adds an entry to the page.
unfoldable pub list_objects :
    (Bytes → Bool) → Bytes → ListOptions → Tables → Option (Result ListError ListResult)
unfolding list_loop
list_objects accepts bucket opts db =
    list_loop accepts db bucket opts (suc (suc (length db.objects) * 1001)) opts.start_after
      empty_page
