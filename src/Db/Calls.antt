-- ===== src/Db/Calls.antt =====
-- The transactions of internal/db on objects and their versions, as calls that a server makes one
-- after another. A transaction that fails is rolled back.
use infra_lightwight_s3_serv.Prelude.{
  ℕ, Bool, ◌≤◌, Bytes, List, [], ◌∷◌, find, weight, weight?, ◌≡◌, refl, arith, Result, ok, err,
  Ensures, weight-remove, ap, bytes_eq_refl, Option-cases, inl, inr,
}
use infra_lightwight_s3_serv.Db.Rows.{
  MultipartUpload, MultipartPart, Tables, Object, Draw, Error, at_key,
}
use infra_lightwight_s3_serv.Db.Versions.{restore_version, purge_version, purge_key_versions}
use infra_lightwight_s3_serv.Db.Current.{WriteOptions}
use infra_lightwight_s3_serv.Db.Objects.{
  put_object, delete_object, delete_object_version, Deletion, get_object,
}
use infra_lightwight_s3_serv.Db.Balance.{tally, refcount, references, object_ref, IsConsistent}
use infra_lightwight_s3_serv.Db.Balance.Transactions.{
  put_object-IsConsistent, delete_object-IsConsistent,
}
use infra_lightwight_s3_serv.Db.Balance.History.{
  delete_object_version-IsConsistent, purge_version-IsConsistent, purge_key_versions-IsConsistent,
}
use infra_lightwight_s3_serv.Db.Balance.Restore.{restore_version-IsConsistent}
use infra_lightwight_s3_serv.Db.Multipart.{
  create_multipart_upload, put_multipart_part, complete_multipart_upload, abort_multipart_upload,
  reap_abandoned_uploads, abandoned_uploads,
}
use infra_lightwight_s3_serv.Db.Balance.Uploads.{
  IsSound, create_multipart_upload-IsSound, put_multipart_part-IsSound,
  complete_multipart_upload-IsSound, release_upload-IsSound, reap_each-IsSound,
}
use infra_lightwight_s3_serv.Db.Blobs.{sweep_unreferenced}
use infra_lightwight_s3_serv.Db.Balance.Collect.{sweep_unreferenced-Swept}
use infra_lightwight_s3_serv.Db.Balance.Keys.{IsKeyed, put_object-IsKeyed, delete_object-IsKeyed}
use infra_lightwight_s3_serv.Db.Balance.Keys.History.{
  delete_object_version-IsKeyed, restore_version-IsKeyed, purge_version-IsKeyed,
  purge_key_versions-IsKeyed,
}

pub data Call : Type 0 where
  puts : Object → WriteOptions → Call
  deletes : (bucket key : Bytes) → WriteOptions → Call
  deletes_version : (bucket key version : Bytes) → Call
  restores : (bucket key version actor : Bytes) → Call
  purges : (bucket key version : Bytes) → Call
  purges_key : (bucket key : Bytes) → Call
  sweeps : (Bytes → Bool) → (now grace limit : ℕ) → Call
  creates_upload : MultipartUpload → Call
  puts_part : (upload : ℕ) → MultipartPart → Call
  completes : (upload : ℕ) → Object → WriteOptions → Call
  aborts : (upload : ℕ) → Call
  reaps : (now age limit : ℕ) → Call

unfoldable pub committed : Tables → Result Error Tables → Tables
committed db (ok t) = t
committed db (err e) = db

unfoldable pub committed_delete : Tables → Result Error (Deletion × Tables) → Tables
committed_delete db (ok (d, t)) = t
committed_delete db (err e) = db

unfoldable pub apply : Draw → Call → Tables → Tables
unfolding committed committed_delete
apply draw (puts obj opts) db = committed db (put_object draw obj opts db)
apply draw (deletes bucket key opts) db =
    committed_delete db (delete_object draw bucket key opts db)
apply draw (deletes_version bucket key version) db =
    committed_delete db (delete_object_version draw bucket key version db)
apply draw (restores bucket key version actor) db =
    committed db (restore_version draw bucket key version actor db)
apply draw (purges bucket key version) db = committed db (purge_version bucket key version db)
apply draw (purges_key bucket key) db = (purge_key_versions bucket key db).1
apply draw (sweeps unlinks now grace limit) db = (sweep_unreferenced unlinks now grace limit db).1
apply draw (creates_upload upload) db =
    committed db (create_multipart_upload draw.now draw.object_id draw.incoming_version upload db)
apply draw (puts_part upload part) db = committed db (put_multipart_part draw.now upload part db)
apply draw (completes upload obj opts) db =
    committed db (complete_multipart_upload draw upload obj opts db)
apply draw (aborts upload) db = abort_multipart_upload upload db
apply draw (reaps now age limit) db = (reap_abandoned_uploads now age limit db).1

unfoldable pub run : List (Draw × Call) → Tables → Tables
unfolding apply
run [] db = db
run ((draw, call) ∷ calls) db = run calls (apply draw call db)

committed-IsSound :
    (db : Tables) (m : Result Error Tables)
    → IsSound db
    → Ensures IsConsistent m
    → Ensures IsKeyed m
    → IsSound (committed db m)
unfolding committed
committed-IsSound db (ok t) c h k = (h, k)
committed-IsSound db (err e) c h k = c

committed_delete-IsSound :
    (db : Tables) (m : Result Error (Deletion × Tables))
    → IsSound db
    → Ensures (λ r. IsConsistent r.1) m
    → Ensures (λ r. IsKeyed r.1) m
    → IsSound (committed_delete db m)
unfolding committed_delete
committed_delete-IsSound db (ok (d, t)) c h k = (h, k)
committed_delete-IsSound db (err e) c h k = c

IsSound-committed :
    (db : Tables) (m : Result Error Tables)
    → IsSound db
    → Ensures IsSound m
    → IsSound (committed db m)
unfolding committed
IsSound-committed db (ok t) c h = h
IsSound-committed db (err e) c h = c

apply-IsSound :
    (draw : Draw) (call : Call) (db : Tables) → IsSound db → IsSound (apply draw call db)
unfolding apply abort_multipart_upload reap_abandoned_uploads
apply-IsSound draw (puts obj opts) db c =
    committed-IsSound db (put_object draw obj opts db) c
      (put_object-IsConsistent draw obj opts db c.0) (put_object-IsKeyed draw obj opts db c.1)
apply-IsSound draw (deletes bucket key opts) db c =
    committed_delete-IsSound db (delete_object draw bucket key opts db) c
      (delete_object-IsConsistent draw bucket key opts db c.0)
      (delete_object-IsKeyed draw bucket key opts db c.1)
apply-IsSound draw (deletes_version bucket key version) db c =
    committed_delete-IsSound db (delete_object_version draw bucket key version db) c
      (delete_object_version-IsConsistent draw bucket key version db c.0)
      (delete_object_version-IsKeyed draw bucket key version db c.1)
apply-IsSound draw (restores bucket key version actor) db c =
    committed-IsSound db (restore_version draw bucket key version actor db) c
      (restore_version-IsConsistent draw bucket key version actor db c.0)
      (restore_version-IsKeyed draw bucket key version actor db c.1)
apply-IsSound draw (purges bucket key version) db c =
    committed-IsSound db (purge_version bucket key version db) c
      (purge_version-IsConsistent bucket key version db c.0)
      (purge_version-IsKeyed bucket key version db c.1)
apply-IsSound draw (purges_key bucket key) db c = (
  purge_key_versions-IsConsistent bucket key db c.0,
  purge_key_versions-IsKeyed bucket key db c.1,
)
apply-IsSound draw (sweeps unlinks now grace limit) db c =
    let swept = sweep_unreferenced-Swept unlinks now grace limit db c.0 c.1 in (swept.0, swept.1)
apply-IsSound draw (creates_upload upload) db c =
    IsSound-committed db
      (create_multipart_upload draw.now draw.object_id draw.incoming_version upload db) c
      (create_multipart_upload-IsSound draw.now draw.object_id draw.incoming_version upload db c)
apply-IsSound draw (puts_part upload part) db c =
    IsSound-committed db (put_multipart_part draw.now upload part db) c
      (put_multipart_part-IsSound draw.now upload part db c)
apply-IsSound draw (completes upload obj opts) db c =
    IsSound-committed db (complete_multipart_upload draw upload obj opts db) c
      (complete_multipart_upload-IsSound draw upload obj opts db c)
apply-IsSound draw (aborts upload) db c = release_upload-IsSound upload db c
apply-IsSound draw (reaps now age limit) db c =
    reap_each-IsSound (abandoned_uploads now age limit db) (0, db) c

pub run-IsSound : (calls : List (Draw × Call)) (db : Tables) → IsSound db → IsSound (run calls db)
unfolding run
run-IsSound [] db c = c
run-IsSound ((draw, call) ∷ calls) db c =
    run-IsSound calls (apply draw call db) (apply-IsSound draw call db c)

abbrev pub no_rows : Tables
no_rows = record { objects = []; versions = []; blobs = []; uploads = []; parts = [] }

pub no_rows-IsSound : IsSound no_rows
unfolding refcount weight find
no_rows-IsSound = (record { balanced = λ e. refl; distinct = tt }, tt)

-- After any sequence of writes, deletes, deletes of one version, restores, purges, sweeps and steps
-- of multipart uploads from empty tables, successful or not, the count of every blob is the number
-- of objects, versions and parts that name it.
pub run-balanced :
    (calls : List (Draw × Call)) (e : Bytes)
    → refcount e (run calls no_rows).blobs ≡ references e (run calls no_rows)
run-balanced calls e = (run-IsSound calls no_rows no_rows-IsSound).0.balanced e

tally_self : (d : Bytes) → tally d d ≡ 1
unfolding tally
tally_self d = rw (bytes_eq_refl d)

-- After any sequence of writes, deletes, deletes of one version, restores, purges, sweeps and steps
-- of multipart uploads from empty tables, successful or not, the blob of every object that a read
-- finds is on record with a count of at least one.
pub run_keeps_blob :
    (calls : List (Draw × Call)) (bucket key : Bytes) (o : Object)
    → get_object bucket key (run calls no_rows) ≡ ok o
    → 1 ≤ refcount o.blob_digest (run calls no_rows).blobs
unfolding get_object
run_keeps_blob calls bucket key o h =
    elim (Option-cases (find (at_key bucket key) (run calls no_rows).objects)) [
      | inl e ↦ absurd (cc (rw (e, get_object) at h))
      | inr (x, e) ↦
          let same : x ≡ o = cc (rw (e, get_object) at h) in
          omega (
            arith,
            run-balanced calls o.blob_digest,
            weight-remove (object_ref o.blob_digest) (at_key bucket key)
                (run calls no_rows).objects,
            ap (weight? (object_ref o.blob_digest)) e,
            ap (λ (y : Object). tally y.blob_digest o.blob_digest) same,
            tally_self o.blob_digest,
          )
    ]
