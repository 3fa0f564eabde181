-- ===== src/S3Api/Multipart/Tests.antt =====
-- The theorems on uploads in parts at a concrete upload.
use infra_lightwight_s3_serv.Prelude.{
  Bytes, List, [], ◌∷◌, codes, map, bytes_eq, find, remove, upsert, update, weight, length, pos, ok,
  ◌≡◌, ◌↔◌, refl, hex_encode, hex_char, is_lower_hex,
}
use infra_lightwight_s3_serv.Db.Rows.{MultipartUpload, MultipartPart, Object, Tables, Draw}
use infra_lightwight_s3_serv.Db.Versioning.{unversioned, versioned}
use infra_lightwight_s3_serv.Db.Blobs.{retain_blob, release_blob}
use infra_lightwight_s3_serv.Db.Current.{
  WriteOptions, located, read_current, scanned, supersede, preserve, preserves, incoming_version,
}
use infra_lightwight_s3_serv.Db.Objects.{
  get_object, write_object, inserted, overwritten, release_current,
}
use infra_lightwight_s3_serv.Db.Multipart.{
  get_multipart_upload, list_multipart_parts, by_number, insert_by_number,
  complete_multipart_upload, release_upload, release_parts, delete_upload_row,
}
use infra_lightwight_s3_serv.Storage.{
  put_blob, digest_of, commit, open_blob, open_all, concat, valid_digest,
}
use infra_lightwight_s3_serv.Storage.Tests.{
  padded, hash32, hash32_sized, hash32_octets, stored_a, stored_a-IsAddressed, apart_a, name_a,
}
use infra_lightwight_s3_serv.S3Api.Multipart.{
  CompletedPart, select_parts, select_from, select_part, select_numbered, uploaded_part,
  unquote_etag, is_quote, require_upload, total_size, composite_etag, recorded, assemble,
  completed_object, complete_assembled, complete_upload,
}
use infra_lightwight_s3_serv.S3Api.Multipart.Selection.{IsSelection, select_parts_iff}
use infra_lightwight_s3_serv.S3Api.Multipart.Completion.{complete_upload_object}

abbrev photos : Bytes
photos = codes "photos"

abbrev upload : MultipartUpload
upload = record {
  id = 1;
  upload_id = codes "u";
  bucket_id = photos;
  key = codes "a.jpg";
  content_type = [];
  metadata = [];
  initiated_at = 1;
}

abbrev part : MultipartPart
part = record {
  upload = 1;
  part_number = 3;
  blob_digest = name_a;
  size = 1;
  etag = codes "61";
  uploaded_at = 1;
}

abbrev in_progress : Tables
in_progress = record {
  objects = [];
  versions = [];
  blobs = record { digest = name_a; size = 1; refcount = 1; created_at = 1 } ∷ [];
  uploads = upload ∷ [];
  parts = part ∷ [];
}

-- The ETag is given in quotes.
abbrev requested : List CompletedPart
requested = record { part_number = pos 3; etag = b'"' ∷ 54 ∷ 49 ∷ b'"' ∷ [] } ∷ []

select_parts_iff_example :
    (select_parts requested (part ∷ []) ≡ ok (part ∷ []))
    ↔ IsSelection 0 requested (part ∷ []) (part ∷ [])
select_parts_iff_example = select_parts_iff requested (part ∷ []) (part ∷ [])

abbrev draw : Draw
draw = record {
  now = 9;
  object_id = 91;
  superseded_row = 92;
  recorded_row = 93;
  incoming_version = codes "v";
  recorded_version = codes "w";
}

abbrev plain : WriteOptions
plain = record { versioning = unversioned; actor = [] }

abbrev completed : Tables
completed = record {
  objects =
      record {
        id = 91;
        bucket_id = photos;
        key = codes "a.jpg";
        blob_digest = name_a;
        size = 1;
        etag = composite_etag hash32 hash32 (part ∷ []);
        content_type = [];
        metadata = [];
        version_id = [];
        created_at = 9;
        updated_at = 9;
      }
      ∷ [];
  versions = [];
  blobs = record { digest = name_a; size = 1; refcount = 1; created_at = 1 } ∷ [];
  uploads = [];
  parts = [];
}

completion :
    complete_upload hash32 hash32 draw photos (codes "u") requested plain (stored_a, in_progress)
    ≡ ok (stored_a, completed)
unfolding complete_upload require_upload get_multipart_upload find bytes_eq select_parts select_from
    select_part select_numbered uploaded_part unquote_etag is_quote list_multipart_parts by_number
    insert_by_number assemble concat open_all open_blob valid_digest put_blob digest_of commit
    padded hex_encode hex_char is_lower_hex complete_assembled completed_object recorded
    complete_multipart_upload located read_current scanned retain_blob upsert supersede preserve
    preserves incoming_version versioned write_object inserted overwritten release_current
    release_upload release_parts release_blob update delete_upload_row remove weight
completion = refl

complete_upload_object_example :
    (u : MultipartUpload) × (parts : List MultipartPart) × (bytes : Bytes) × (o : Object)
    × (require_upload photos (codes "u") in_progress ≡ ok u)
    × (select_parts requested (list_multipart_parts u.id in_progress) ≡ ok parts)
    × (open_all hash32 hash32 (map (λ (p : MultipartPart). p.blob_digest) parts) stored_a
        ≡ ok bytes)
    × (get_object photos u.key completed ≡ ok o)
    × (o.etag ≡ composite_etag hash32 hash32 parts)
    × (o.size ≡ total_size parts)
    × (length bytes ≡ total_size parts)
    × (open_blob o.blob_digest stored_a ≡ ok bytes)
complete_upload_object_example =
    complete_upload_object hash32 hash32 hash32_sized hash32_octets draw photos (codes "u")
      requested plain stored_a stored_a in_progress completed stored_a-IsAddressed apart_a
      completion
