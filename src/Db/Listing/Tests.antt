-- ===== src/Db/Listing/Tests.antt =====
-- The theorems on listings at concrete tables.
use infra_lightwight_s3_serv.Prelude.{
  ◌+◌, ◌≤◌, true, false, ◌&&◌, ◌||◌, Bytes, [], ◌∷◌, ◌++◌, codes, bytes_eq, bytes_lt, has_prefix,
  has_suffix, contains, index_of, trim_prefix, Bool, all, ltb, ◌==◌, ok, err, length, none, some,
  ◌≡◌, ◌⊎◌, refl, head,
}
use infra_lightwight_s3_serv.Db.Rows.{Object, Tables}
use infra_lightwight_s3_serv.Db.Listing.{
  highest_rune, selected, insert_by_key, by_key, fetch_key_batch, group_of, ListOptions, ListResult,
  page_size, previous_cursor, truncated, scan_key, scan_batch, settle, after_scan, after_batch,
  list_loop, list_objects, raised_head, raise_last, prefix_upper_bound, accepted_range,
  refused_text,
}
use infra_lightwight_s3_serv.Db.Listing.Range.{selected-has_prefix}
use infra_lightwight_s3_serv.Db.Listing.Groups.{group_of_cases}
use infra_lightwight_s3_serv.Db.Listing.Order.{OneRow}
use infra_lightwight_s3_serv.Db.Listing.Page.{shows}
use infra_lightwight_s3_serv.Db.Listing.Coverage.{list_objects_covers}
use infra_lightwight_s3_serv.Db.Listing.Termination.{list_objects_ends}
use infra_lightwight_s3_serv.Db.Listing.Accepted.{takes_row, takes_prefix, list_objects_page}

abbrev photos : Bytes
photos = codes "photos"

abbrev photo : Bytes → Object
photo key = record {
  id = 1;
  bucket_id = photos;
  key = key;
  blob_digest = codes "aa";
  size = 5;
  etag = codes "aa";
  content_type = [];
  metadata = [];
  version_id = [];
  created_at = 1;
  updated_at = 1;
}

abbrev photo_a : Object
photo_a = photo (codes "a.jpg")

selected-has_prefix_example : selected photos (codes "a.") [] photo_a ≡ (
    bytes_eq photo_a.bucket_id photos
    && bytes_lt [] photo_a.key
    && has_prefix photo_a.key (codes "a."))
selected-has_prefix_example = selected-has_prefix photos (codes "a.") [] photo_a refl refl

nested_has_prefix : has_prefix (codes "2026/may/a.jpg") (codes "2026/") ≡ true
unfolding has_prefix
nested_has_prefix = refl

slash_is_delimiter : bytes_eq (codes "/") [] ≡ false
unfolding bytes_eq
slash_is_delimiter = refl

group_of_cases_example :
    ((g : Bytes) × (r : Bytes) × (t : Bytes) × (group_of
          (codes "2026/may/a.jpg")
          (codes "2026/")
          (codes "/")
        ≡ some g)
      × (g ≡ codes "2026/" ++ (r ++ codes "/"))
      × (codes "2026/may/a.jpg" ≡ g ++ t))
    ⊎ ((r : Bytes) × (group_of (codes "2026/may/a.jpg") (codes "2026/") (codes "/") ≡ none)
        × (codes "2026/may/a.jpg" ≡ codes "2026/" ++ r)
        × (contains r (codes "/") ≡ false))
group_of_cases_example =
    group_of_cases (codes "2026/may/a.jpg") (codes "2026/") (codes "/") nested_has_prefix
      slash_is_delimiter

abbrev album : Tables
album = record {
  objects =
      photo (codes "b.jpg") ∷ photo (codes "2026/may.jpg") ∷ photo (codes "2026/june.jpg") ∷ [];
  versions = [];
  blobs = [];
  uploads = [];
  parts = [];
}

abbrev one_at_a_time : ListOptions
one_at_a_time = record { prefix = []; delimiter = codes "/"; start_after = []; max_keys = 1 }

-- Texts of ASCII, perhaps with the highest rune at the end.
abbrev takes_text : Bytes → Bool
takes_text s = all (λ c. (ltb 0 c && ltb c 128) || (c == 244 || (c == 143 || c == 191))) s

abbrev first_page : ListResult
first_page = record {
  objects = [];
  common_prefixes = codes "2026/" ∷ [];
  is_truncated = true;
  next_start_after = codes "2026/" ++ highest_rune;
}

first_page_listed : list_objects takes_text photos one_at_a_time album ≡ some (ok first_page)
unfolding list_objects list_loop after_batch after_scan scan_batch scan_key settle truncated
    previous_cursor page_size fetch_key_batch by_key insert_by_key selected group_of bytes_eq
    bytes_lt has_prefix has_suffix index_of trim_prefix
first_page_listed = refl

in_album :
    (bytes_eq photos photos && bytes_lt [] (codes "b.jpg") && has_prefix (codes "b.jpg") []) ≡ true
unfolding bytes_eq bytes_lt has_prefix
in_album = refl

prefix_empty : (bytes_eq [] [] || false) ≡ true
unfolding bytes_eq
prefix_empty = refl

album_unique : OneRow album.objects
unfolding bytes_eq
album_unique = (refl, (refl, (refl, tt)))

list_objects_covers_example :
    (shows one_at_a_time first_page (codes "b.jpg") ≡ true)
    ⊎ ((first_page.is_truncated ≡ true)
        × (bytes_lt first_page.next_start_after (codes "b.jpg") ≡ true))
list_objects_covers_example =
    list_objects_covers takes_text photos one_at_a_time album first_page (photo (codes "b.jpg"))
      album_unique refl prefix_empty first_page_listed (head refl) in_album

-- The finding on the bound of a prefix: its last byte 7F is raised to 80.
delete_refused :
    list_objects takes_text photos
      (record { prefix = 127 ∷ []; delimiter = []; start_after = []; max_keys = 1 })
      album
    ≡ some (err refused_text)
unfolding list_objects list_loop after_batch fetch_key_batch accepted_range prefix_upper_bound
    raise_last raised_head bytes_eq
delete_refused = refl

list_objects_ends_example :
    (list_objects takes_text photos one_at_a_time album ≡ some (err refused_text))
    ⊎ ((page : ListResult) × (list_objects takes_text photos one_at_a_time album ≡ some (ok page))
        × (length page.objects + length page.common_prefixes ≤ page_size 1))
list_objects_ends_example = list_objects_ends takes_text photos one_at_a_time album

rows_taken : all (takes_row takes_text [] (codes "/")) album.objects ≡ true
unfolding group_of bytes_eq index_of trim_prefix has_prefix
rows_taken = refl

no_prefix_taken : takes_prefix takes_text [] ≡ true
unfolding bytes_eq
no_prefix_taken = refl

list_objects_page_example :
    (page : ListResult) × (list_objects takes_text photos one_at_a_time album ≡ some (ok page))
    × (length page.objects + length page.common_prefixes ≤ page_size 1)
list_objects_page_example =
    list_objects_page takes_text photos one_at_a_time album refl no_prefix_taken rows_taken
