-- ===== src/Repository.antt =====
-- scripts/repo.py: signed package snapshots and their promotion.
pub mod Records
pub mod Packages
pub mod Verify
pub mod Sign
pub mod Publish
pub mod Gate
pub mod Promote
mod Tests
