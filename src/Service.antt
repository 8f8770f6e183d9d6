-- ===== src/Service.antt =====
-- api/service: the rules of the registry on plugins, over a repository of them.
pub mod Patterns
pub mod Artifacts
pub mod Normal
pub mod Validation
pub mod Lookup
pub mod Publishing
pub mod Removal
pub mod Review
pub mod Listing
pub mod Dedup
mod Tests
