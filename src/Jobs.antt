-- ===== src/Jobs.antt =====
-- rootfs/usr/lib/rougarou/jobs.py: the durable job queue. `Schema` has the tables, `Ops` the
-- operations on them; the other modules prove what those keep.
pub mod Schema
pub mod Store
pub mod Ops
pub mod Step
pub mod Refine
pub mod Valid
pub mod Life
pub mod Operation
mod Total
pub mod Claim
pub mod Outcome
mod Review
pub mod Tests
pub mod Run
pub mod Worker
pub mod Show
