-- ===== src/S3Api.antt =====
-- internal/s3api: the S3 protocol in front of the tables.
pub mod Authorization
pub mod Authorize
pub mod BucketName
pub mod Conditional
pub mod Encoding
pub mod Multipart
pub mod Signature
pub mod Chunked
mod Tests
