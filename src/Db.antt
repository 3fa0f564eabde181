-- ===== src/Db.antt =====
-- internal/db: the tables of objects, object versions and blobs, with the transactions on them, and
-- the rules that the store of access keys and listings follows.
pub mod Rows
pub mod Versioning
pub mod Blobs
pub mod Versions
pub mod Current
pub mod Objects
pub mod Stored
pub mod Multipart
pub mod Balance
pub mod Calls
pub mod Contract
pub mod Buckets
pub mod Grants
pub mod Listing
mod Tests
