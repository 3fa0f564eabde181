-- ===== src/Lib.antt =====
-- A server of the S3 protocol that keeps its state in PostgreSQL and its bytes in files named by
-- their digest. The server (internal/s3api) checks a request against the grant of its access key and
-- then runs one transaction of internal/db; internal/metrics counts the request when it is done.
--
-- Db, of internal/db. A table is the list of its rows, and the tables of objects, object versions and
-- blobs are one record (Db.Rows). A transaction is a function from the tables to an error or new
-- tables; an error, also one of a constraint of the schema, leaves the old ones (Db.Calls). What a
-- transaction takes from the clock and from the random sources is its argument, Draw. The advisory
-- locks of the source order the transactions of one key, and here calls follow one after another.
--   Db.Versioning   versioning_state.go   the states of a bucket and the spelling of version ids
--   Db.Blobs        blobs.go              reference counts and the sweep; the unlinking of a file is
--                                         a parameter that says for which digests it succeeds
--   Db.Versions     versions.go           the history of a key: RecordVersion, GetVersion,
--                                         RestoreVersion, PurgeVersion, PurgeKeyVersions
--   Db.Current      current.go            readCurrent, supersede, replaceNullVersion
--   Db.Objects      objects.go, version_access.go
--                                         PutObject, GetObject, DeleteObject, GetObjectVersion,
--                                         DeleteObjectVersion, promoteNewestVersion
--   Db.Multipart    multipart.go          uploads in parts: their rows, parts and references
--   Db.Stored       objects.go          PutObject and GetObject whole: the JSON of the metadata, the
--                                       length of the key and the foreign key of the bucket, around
--                                       the rows of Db.Objects; what json and the database do there is
--                                       the parameter Columns
--   Db.Buckets      buckets.go            the buckets, and what the deletion of one cascades to
--   Db.Grants       grants.go             the rules of an access key
--   Db.Listing      listing.go            ListObjects: the batches, the scan of a batch, the page and
--                                         its cursor; which texts the database takes is a parameter
-- Db.Balance compares the count of each blob with the rows that name it, a primitive at a time,
-- Db.Calls runs sequences of transactions and sweeps, and Db.Contract is about the contents of a key
-- before and after an operation. The tests of each part stand in its module Tests.
--
-- S3Api, of internal/s3api.
--   S3Api.Authorize    authorize.go    permit, listingLimitFor, narrow
--   S3Api.Conditional  conditional.go  checkPreconditions, with quoteETag of objects.go; the parser
--                                      of HTTP dates is a parameter
--   S3Api.Encoding     encoding.go     uriEncode and percentDecode
--   S3Api.BucketName   bucketname.go   ValidateBucketName, ValidateObjectKey
--   S3Api.Multipart    multipart.go    selectParts, compositeETag and the handlers of UploadPart and
--                                      CompleteMultipartUpload, on the files and the tables together
--   S3Api.Signature    sigv4.go        the scope, the string to sign and the signing key
--   S3Api.Authorization  sigv4.go      the Authorization header and its credential
--   S3Api.Chunked      chunked.go      the reader of aws-chunked bodies
--
-- Storage, of internal/storage/blobstore.go: a file is its digest and its bytes. SHA-256, MD5 and
-- HMAC are parameters; of SHA-256 the theorems suppose 32 octets, and that the hash tells the bytes
-- in question from those that are stored.
--
-- Metrics, of internal/metrics.
--   Metrics.Collector  collector.go, FlushMetrics of internal/db/metrics.go
--   Metrics.Live       live.go
--
-- Alerts, of internal/alerts/engine.go and internal/db/alerts.go: the rules, the alerts and the cycle
-- of the engine over them. What a rule measures and whether a message goes out are parameters.
--
-- A string is its list of bytes (Prelude.Text), and white space is that of Unicode in UTF-8. Keys are
-- in the byte order of their C collation; the names of buckets and alert rules are in the order of the
-- database, which is a parameter. The metadata of a row is the JSON object of the column, which
-- Db.Stored encodes and decodes. The counters of internal/metrics wrap at 2 ^ 64; the
-- counts of blobs and the sizes are columns of PostgreSQL, which refuses an overflow, and are numbers
-- without a bound. Most loops of the source run over a list or a string and are structural recursion.
-- Three take fuel: the page loop of ListObjects, with fuel for every entry of a page and every row of
-- the table (Db.Listing.Termination shows that it is enough); the loop of Read, which ends in its
-- second round (S3Api.Chunked.Delivery); and the trailers of a chunked body, with fuel for each byte.
--
-- Not modelled: the verification of a signed request, sessions and accounts, logs, the
-- console, configuration and migrations, the failures of the disk, and the HTTP handlers but those of
-- uploads in parts. The order of a map's iteration in Collector.drain is the order of the list of
-- pending samples.
pub mod Prelude
pub mod Db
pub mod S3Api
pub mod Storage
pub mod Metrics
pub mod Alerts
