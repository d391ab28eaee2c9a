-- ===== src/Updates.antt =====
-- rootfs/usr/lib/rougarou/updates.py: guided package updates.
pub mod Operations
pub mod Apply
pub mod Release
pub mod Planning
