-- ===== src/Db/Tests.antt =====
-- The theorems on internal/db at concrete tables.
use infra_lightwight_s3_serv.Prelude.{
  not, ltb, length, all, arith, ℕ, ◌*◌, ◌+◌, Bool, true, false, Bytes, List, [], ◌∷◌, codes, none,
  some, ◌≡◌, ◌≢◌, ◌≤◌, refl, ok, err, Ensures, upsert, update, find, remove, subst, any, implies,
  ◌==◌, if◌then◌else◌, bytes_eq,
}
use infra_lightwight_s3_serv.Db.Rows.{
  at_key, object_not_found, Blob, Draw, Object, ObjectVersion, Tables, at_version,
  foreign_key_violation, unique_violation,
}
use infra_lightwight_s3_serv.Db.Versioning.{
  configured, enabled, external_version_id, internal_version_id, null_version_id, suspended,
  versioned,
}
use infra_lightwight_s3_serv.Db.Blobs.{
  sweep_unreferenced, sweep_each, sweep_one, is_referenced, has_digest, without_blob,
  unreferenced_blobs, by_age, insert_by_age, claim_and_unlink, release_blob, retain_blob,
}
use infra_lightwight_s3_serv.Db.Current.{
  WriteOptions, incoming_version, located, preserve, preserves, read_current, replace_null_version,
  scanned, supersede, superseded,
}
use infra_lightwight_s3_serv.Db.Objects.{
  Deletion, begin_delete, delete_addressed, delete_marker_row, delete_object, delete_object_version,
  finish_delete, get_object, get_object_version, insert_promoted, inserted, is_current, make_room,
  marker_of, newer, newest_version, overwritten, place_marker, promote_if_vacant,
  promote_newest_version, promote_version, put_object, release_current, remove_current,
  version_or_null, write_marker, write_object,
}
use infra_lightwight_s3_serv.Db.Versions.{
  delete_version_row, get_version, insert_version, marker_has_no_blob, record_version,
  release_digest, release_previous, restore_contents, restore_digest, restore_version,
  restored_object, restored_over, restored_row, restored_version, retain_digest, stored_version,
  write_restored,
}
use infra_lightwight_s3_serv.Db.Balance.{refcount, references, IsConsistent}
use infra_lightwight_s3_serv.Db.Balance.Sweep.{claim_and_unlink_safe, Keyed}
use infra_lightwight_s3_serv.Db.Calls.{
  Call, apply, committed, committed_delete, deletes, deletes_version, no_rows, no_rows-IsSound,
  puts, run, run-IsSound, run-balanced, run_keeps_blob,
}
use infra_lightwight_s3_serv.Db.Contract.{SameContents}
use infra_lightwight_s3_serv.Db.Contract.Preserved.{get_object_version-put_object}
use infra_lightwight_s3_serv.Db.Balance.Collect.{sweep_unreferenced-Swept, Swept}
use infra_lightwight_s3_serv.Db.Contract.Deletes.{get_object-delete_object}
use infra_lightwight_s3_serv.Db.Contract.Nulls.{put_object_blocked}
use infra_lightwight_s3_serv.Db.Contract.Restored.{restore_version_reuses_id}
use infra_lightwight_s3_serv.Db.Grants.{Grant, read, validate}
use infra_lightwight_s3_serv.Db.Grants.Validation.{accepted, sound_rule, accepted-validate}

abbrev draw_of : ℕ → Bytes → Bytes → Draw
draw_of n incoming recorded = record {
  now = 100 * n;
  object_id = 10 * n + 1;
  superseded_row = 10 * n + 2;
  recorded_row = 10 * n + 3;
  incoming_version = incoming;
  recorded_version = recorded;
}

abbrev bucket : Bytes
bucket = codes "photos"

abbrev key : Bytes
key = codes "a.jpg"

abbrev ann : Bytes
ann = codes "ann"

abbrev upload : Bytes → ℕ → Object
upload digest size = record {
  id = 0;
  bucket_id = bucket;
  key = key;
  blob_digest = digest;
  size = size;
  etag = digest;
  content_type = codes "image/jpeg";
  metadata = [];
  version_id = [];
  created_at = 0;
  updated_at = 0;
}

abbrev with_versions : WriteOptions
with_versions = record { versioning = enabled; actor = ann }

abbrev without_versions : WriteOptions
without_versions = record { versioning = suspended; actor = ann }

abbrev first_draw : Draw
first_draw = draw_of 1 (codes "v1") (codes "w1")

abbrev second_draw : Draw
second_draw = draw_of 2 (codes "v2") (codes "w2")

abbrev third_draw : Draw
third_draw = draw_of 3 (codes "v3") (codes "w3")

abbrev red : Object
red = upload (codes "aa") 5

abbrev blue : Object
blue = upload (codes "bb") 7

-- Two writes to a bucket with versioning, a delete, and the removal of its marker.
abbrev history : List (Draw × Call)
history =
    (first_draw, puts red with_versions)
    ∷ (second_draw, puts blue with_versions)
    ∷ (third_draw, deletes bucket key with_versions)
    ∷ (third_draw, deletes_version bucket key (codes "v3"))
    ∷ []

abbrev one_write : List (Draw × Call)
one_write = (first_draw, puts red with_versions) ∷ []

run-balanced_example :
    refcount (codes "bb") (run history no_rows).blobs
    ≡ references (codes "bb") (run history no_rows)
run-balanced_example = run-balanced history (codes "bb")

-- The removal of the marker makes the second write current again.
abbrev undeleted : Object
undeleted = record blue { id = 31; version_id = codes "v2"; created_at = 300; updated_at = 300 }

history_leaves : get_object bucket key (run history no_rows) ≡ ok undeleted
unfolding run apply committed committed_delete put_object located read_current scanned retain_blob
    upsert supersede preserve preserves superseded record_version stored_version retain_digest
    insert_version marker_has_no_blob incoming_version versioned write_object inserted overwritten
    release_current release_blob update find get_object bytes_eq remove delete_object begin_delete
    configured write_marker place_marker make_room marker_of delete_marker_row replace_null_version
    delete_version_row release_digest external_version_id internal_version_id finish_delete
    remove_current delete_object_version delete_addressed is_current version_or_null
    promote_if_vacant promote_newest_version newest_version newer promote_version insert_promoted
history_leaves = refl

run_keeps_blob_example : 1 ≤ refcount undeleted.blob_digest (run history no_rows).blobs
run_keeps_blob_example = run_keeps_blob history bucket key undeleted history_leaves

-- The tables after one write.
abbrev stored_red : Object
stored_red = record red { id = 11; version_id = codes "v1"; created_at = 100; updated_at = 100 }

abbrev red_blob : Blob
red_blob = record { digest = codes "aa"; size = 5; refcount = 1; created_at = 100 }

abbrev one_object : Tables
one_object = record {
  objects = stored_red ∷ [];
  versions = [];
  blobs = red_blob ∷ [];
  uploads = [];
  parts = [];
}

one_write_leaves : run one_write no_rows ≡ one_object
unfolding run apply committed committed_delete put_object located read_current scanned retain_blob
    upsert supersede preserve preserves superseded record_version stored_version retain_digest
    insert_version marker_has_no_blob incoming_version versioned write_object inserted overwritten
    release_current release_blob update find get_object bytes_eq
one_write_leaves = refl

abbrev stored_blue : Object
stored_blue = record blue { id = 11; version_id = codes "v2"; created_at = 100; updated_at = 200 }

abbrev red_version : ObjectVersion
red_version = record {
  id = 22;
  bucket_id = bucket;
  key = key;
  version_id = codes "v1";
  blob_digest = some (codes "aa");
  size = 5;
  etag = codes "aa";
  content_type = codes "image/jpeg";
  metadata = [];
  is_delete_marker = false;
  created_at = 100;
  created_by = ann;
}

abbrev two_versions : Tables
two_versions = record {
  uploads = [];
  parts = [];
  objects = stored_blue ∷ [];
  versions = red_version ∷ [];
  blobs = red_blob ∷ record { digest = codes "bb"; size = 7; refcount = 1; created_at = 200 } ∷ [];
}

second_write : put_object second_draw blue with_versions one_object ≡ ok two_versions
unfolding put_object located read_current scanned retain_blob upsert supersede preserve preserves
    superseded record_version stored_version retain_digest insert_version marker_has_no_blob
    incoming_version versioned write_object inserted overwritten release_current release_blob update
    find get_object bytes_eq
second_write = refl

red_is_current : get_object bucket key one_object ≡ ok stored_red
unfolding get_object find bytes_eq
red_is_current = refl

ids_differ : bytes_eq (codes "v2") (codes "v1") ≡ false
unfolding bytes_eq
ids_differ = refl

id_is_proper : bytes_eq (codes "v1") (codes "null") ≡ false
unfolding bytes_eq
id_is_proper = refl

get_object_version-put_object_example :
    (p : Object) × (get_object_version bucket key (external_version_id (codes "v1")) two_versions
      ≡ ok p)
    × SameContents p stored_red
    × (p.version_id ≡ codes "v1")
    × (p.updated_at ≡ 100)
get_object_version-put_object_example =
    get_object_version-put_object second_draw blue with_versions one_object two_versions stored_red
      refl red_is_current ids_differ id_is_proper refl second_write

-- A null version in history beside a null current version.
abbrev null_red : Object
null_red = record stored_red { version_id = [] }

abbrev two_nulls : Tables
two_nulls = record {
  uploads = [];
  parts = [];
  objects = null_red ∷ [];
  versions = record red_version { version_id = codes "null" } ∷ [];
  blobs = record red_blob { refcount = 2 } ∷ [];
}

null_is_current : get_object bucket key two_nulls ≡ ok null_red
unfolding get_object find bytes_eq
null_is_current = refl

null_is_stored : any (at_version bucket key null_version_id) two_nulls.versions ≡ true
unfolding bytes_eq
null_is_stored = refl

put_object_blocked_example :
    put_object second_draw blue with_versions two_nulls ≡ err unique_violation
put_object_blocked_example =
    put_object_blocked second_draw blue with_versions two_nulls null_red refl null_is_current refl
      null_is_stored

blue_is_current : get_object bucket key two_versions ≡ ok stored_blue
unfolding get_object find bytes_eq
blue_is_current = refl

red_is_stored : get_version bucket key (codes "v1") two_versions ≡ ok red_version
unfolding get_version find bytes_eq
red_is_stored = refl

abbrev restored : Tables
restored = record {
  uploads = [];
  parts = [];
  objects =
      record stored_blue { blob_digest = codes "aa"; size = 5; etag = codes "aa"; updated_at = 300 }
      ∷ [];
  versions =
      record red_version { id = 33; version_id = codes "w3"; created_at = 300 } ∷ red_version ∷ [];
  blobs =
      record red_blob { refcount = 3 }
      ∷ record { digest = codes "bb"; size = 7; refcount = 0; created_at = 200 }
      ∷ [];
}

restore_succeeds : restore_version third_draw bucket key (codes "v1") ann two_versions ≡ ok restored
unfolding restore_version get_version restore_digest restore_contents restored_object
    restored_version write_restored restored_row restored_over release_previous put_object located
    read_current scanned retain_blob upsert supersede preserve preserves superseded record_version
    stored_version retain_digest insert_version marker_has_no_blob incoming_version versioned
    write_object inserted overwritten release_current release_blob update find get_object bytes_eq
restore_succeeds = refl

restore_version_reuses_id_example :
    (p : Object) × (get_object bucket key restored ≡ ok p)
    × (p.version_id ≡ codes "v2")
    × (p.blob_digest ≡ codes "aa")
    × (p.size ≡ 5)
    × (p.etag ≡ codes "aa")
restore_version_reuses_id_example =
    restore_version_reuses_id third_draw bucket key (codes "v1") ann (codes "aa") two_versions
      restored red_version stored_blue blue_is_current red_is_stored refl refl restore_succeeds

one_object-IsConsistent : IsConsistent one_object
one_object-IsConsistent =
    subst IsConsistent one_write_leaves (run-IsSound one_write no_rows no_rows-IsSound).0

one_object-Keyed : Keyed one_object.blobs
unfolding bytes_eq
one_object-Keyed = (refl, tt)

-- Every file is unlinked.
abbrev unlinked : Bytes → Bool
unlinked d = true

claim_and_unlink_safe_example :
    (claim_and_unlink unlinked (codes "aa") one_object ≢ err foreign_key_violation)
    × Ensures
        (λ r. (implies r.0 (references (codes "aa") one_object == 0) ≡ true) × IsConsistent r.1)
        (claim_and_unlink unlinked (codes "aa") one_object)
claim_and_unlink_safe_example =
    claim_and_unlink_safe unlinked (codes "aa") one_object one_object-IsConsistent one_object-Keyed

abbrev emptied : Tables
emptied = record {
  uploads = [];
  parts = [];
  objects = [];
  versions =
      record {
        id = 33;
        bucket_id = bucket;
        key = key;
        version_id = codes "v3";
        blob_digest = none;
        size = 0;
        etag = [];
        content_type = [];
        metadata = [];
        is_delete_marker = true;
        created_at = 300;
        created_by = ann;
      }
      ∷ record red_version {
        id = 32;
        version_id = codes "v2";
        blob_digest = some (codes "bb");
        size = 7;
        etag = codes "bb";
        created_at = 200;
      }
      ∷ red_version
      ∷ [];
  blobs = two_versions.blobs;
}

abbrev marked : Deletion
marked = record { deleted = true; marker_version_id = codes "v3"; delete_marker = true }

delete_succeeds :
    delete_object third_draw bucket key with_versions two_versions ≡ ok (marked, emptied)
unfolding put_object located read_current scanned retain_blob upsert supersede preserve preserves
    superseded record_version stored_version retain_digest insert_version marker_has_no_blob
    incoming_version versioned write_object inserted overwritten release_current release_blob update
    find get_object bytes_eq remove delete_object begin_delete configured write_marker place_marker
    make_room marker_of delete_marker_row replace_null_version delete_version_row release_digest
    external_version_id finish_delete remove_current
delete_succeeds = refl

row_is_single : any (at_key bucket key) (remove (at_key bucket key) two_versions.objects) ≡ false
unfolding remove bytes_eq
row_is_single = refl

get_object-delete_object_example :
    (get_object bucket key emptied ≡ err object_not_found)
    × (marked.delete_marker ≡ configured enabled)
get_object-delete_object_example =
    get_object-delete_object third_draw bucket key with_versions two_versions emptied marked
      row_is_single delete_succeeds

-- The same table with a blob that nothing names.
abbrev with_garbage : Tables
with_garbage = record one_object {
  blobs = red_blob ∷ record { digest = codes "cc"; size = 1; refcount = 0; created_at = 10 } ∷ [];
}

with_garbage-IsConsistent : IsConsistent with_garbage
unfolding refcount find
with_garbage-IsConsistent = record {
  balanced = λ e. ground (arith, one_object-IsConsistent.balanced e);
  distinct = tt;
}

with_garbage-Keyed : Keyed with_garbage.blobs
unfolding bytes_eq
with_garbage-Keyed = (refl, (refl, tt))

-- The sweep reclaims the one blob that nothing names.
swept_garbage : sweep_unreferenced unlinked 1000 100 10 with_garbage ≡ (1, one_object)
unfolding sweep_unreferenced sweep_each sweep_one claim_and_unlink is_referenced has_digest
    without_blob unreferenced_blobs by_age insert_by_age find remove bytes_eq
swept_garbage = refl

sweep_unreferenced-Swept_example :
    Swept with_garbage (sweep_unreferenced unlinked 1000 100 10 with_garbage).1
sweep_unreferenced-Swept_example =
    sweep_unreferenced-Swept unlinked 1000 100 10 with_garbage with_garbage-IsConsistent
      with_garbage-Keyed

abbrev readers : Grant
readers = record {
  unrestricted = false;
  rules = record { bucket = bucket; prefix = []; permissions = read ∷ [] } ∷ [];
}

accepted-validate_example : accepted (validate readers) ≡ (
    if readers.unrestricted
    then not (ltb 0 (length readers.rules))
    else all sound_rule readers.rules)
accepted-validate_example = accepted-validate readers
