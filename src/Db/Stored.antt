-- ===== src/Db/Stored.antt =====
-- internal/db/objects.go: PutObject and GetObject with the encoding of the metadata and with what the
-- columns of the row ask. What stands outside the source is a parameter, Columns.
mod Tests
use infra_lightwight_s3_serv.Prelude.{
  ℕ, ltb, leb, Bool, not, ◌&&◌, Bytes, List, [], any, bytes_eq, Result, ok, err, ◌>>=◌, >>=-ok,
  ok-injective, if◌then◌else◌, ◌≡◌, refl, sym, ap, ◌∙◌, subst, Bool-cases, inl, inr,
}
use infra_lightwight_s3_serv.Db.Rows.{
  Tables, Object, Draw, Error, check_violation, foreign_key_violation,
}
use infra_lightwight_s3_serv.Db.Versioning.{versioned}
use infra_lightwight_s3_serv.Db.Current.{WriteOptions}
use infra_lightwight_s3_serv.Db.Objects.{put_object, get_object}
use infra_lightwight_s3_serv.Db.Buckets.{Bucket}
use infra_lightwight_s3_serv.Db.Contract.{SameContents}
use infra_lightwight_s3_serv.Db.Contract.Writes.{get_object-put_object}

-- json.Marshal with the input of a jsonb column, json.Unmarshal of its text, and the number of
-- characters that the database counts in a text; each may refuse what it is given.
pub record Columns : Type 0 where
  pub marshal : List (Bytes × Bytes) → Result Error (List (Bytes × Bytes))
  pub unmarshal : List (Bytes × Bytes) → Result Error (List (Bytes × Bytes))
  pub characters : Bytes → Result Error ℕ

-- The foreign key of the bucket, and CHECK (length(key) BETWEEN 1 AND 1024).
unfoldable pub check_row : Columns → List Bucket → Object → Result Error Object
check_row c buckets obj = do
  n ← c.characters obj.key
  if not (ltb 0 n && leb n 1024)
      then err check_violation
      else if not (any (λ (b : Bucket). bytes_eq b.id obj.bucket_id) buckets)
      then err foreign_key_violation
      else ok obj

-- PutObject. A row that is refused abandons the transaction, whatever else it did.
unfoldable pub store_object :
    Columns → List Bucket → Draw → Object → WriteOptions → Tables → Result Error Tables
unfolding check_row put_object
store_object c buckets draw obj opts db = do
  document ← c.marshal obj.metadata
  row ← check_row c buckets (record obj { metadata = document })
  put_object draw row opts db

-- GetObject. The text of the column is never empty.
unfoldable pub read_object : Columns → Bytes → Bytes → Tables → Result Error Object
unfolding get_object
read_object c bucket key db = do
  o ← get_object bucket key db
  metadata ← c.unmarshal o.metadata
  ok (record o { metadata = metadata })

check_row-ok :
    (c : Columns) (buckets : List Bucket) (obj row : Object)
    → check_row c buckets obj ≡ ok row
    → obj ≡ row
unfolding check_row
check_row-ok c buckets obj row h =
    let (n, e, k) = >>=-ok (c.characters obj.key) _ h in
    elim (Bool-cases (not (ltb 0 n && leb n 1024))) [
      | inl f ↦ absurd (cc (rw f at k))
      | inr f ↦
          elim (Bool-cases (not (any (λ (b : Bucket). bytes_eq b.id obj.bucket_id) buckets))) [
            | inl g ↦ absurd (cc (rw (f, g) at k))
            | inr g ↦ ok-injective (rw (f, g) at k)
          ]
    ]

-- A write that succeeds is read back, where what its metadata were encoded to can be decoded:
-- GetObject finds the key with the contents that were put, with the decoded metadata, under the version id that was minted if
-- versioning is enabled and the null version otherwise, and with the transaction's time as its
-- modification time.
pub read_object-store_object :
    (c : Columns) (buckets : List Bucket) (draw : Draw) (obj : Object) (opts : WriteOptions)
    (db t : Tables) (document metadata : List (Bytes × Bytes))
    → c.marshal obj.metadata ≡ ok document
    → c.unmarshal document ≡ ok metadata
    → store_object c buckets draw obj opts db ≡ ok t
    → (o : Object) × (read_object c obj.bucket_id obj.key t ≡ ok o)
      × SameContents o (record obj { metadata = metadata })
      × (o.version_id ≡ (if versioned opts.versioning then draw.incoming_version else []))
      × (o.updated_at ≡ draw.now)
unfolding store_object read_object
read_object-store_object c buckets draw obj opts db t document metadata encoded decoded h =
    let sent : Object = record obj { metadata = document } in
    let (doc, e, k) = >>=-ok (c.marshal obj.metadata) _ h in
    let same : doc ≡ document = cc (e, encoded) in
    let (row, f, put) = >>=-ok (check_row c buckets (record obj { metadata = doc })) _ k in
    let row_sent : row ≡ sent =
      sym (check_row-ok c buckets (record obj { metadata = doc }) row f)
      ∙ ap (λ d. record obj { metadata = d }) same in
    let (o, found, like, id, time) =
      get_object-put_object draw sent opts db t
        (subst (λ x. put_object draw x opts db ≡ ok t) row_sent put) in
    let column : c.unmarshal o.metadata ≡ ok metadata = ap c.unmarshal like.metadata ∙ decoded in
    (
      record o { metadata = metadata },
      rw (found, column) refl,
      record {
        blob_digest = like.blob_digest;
        size = like.size;
        etag = like.etag;
        content_type = like.content_type;
        metadata = refl;
      },
      id,
      time,
    )
