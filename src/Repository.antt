-- ===== src/Repository.antt =====
-- api/repository: the file-backed repository of plugins, and the filters of its listings.
pub mod Catalogue
pub mod Disk
pub mod Versions
pub mod Identity
pub mod Reads
pub mod Writes
pub mod Contacts
pub mod Filters
pub mod Interface
pub mod Atomicity
pub mod Storing
pub mod Soundness
pub mod Tests
