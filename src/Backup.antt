-- ===== src/Backup.antt =====
-- rootfs/usr/lib/rougarou/backup.py: encrypted backups and staged restores. `Queue` is what a restore
-- does to the copy of the queue, `Tree` what it lets pass of a snapshot's list of files.
pub mod Queue
pub mod Quarantine
pub mod Tree
pub mod Config
pub mod Snapshots
pub mod Restore
pub mod Create
mod Tests
