-- ===== src/Tasks.antt =====
-- rootfs/usr/lib/rougarou/tasks.py: the schedules. `Store` has the state beside the queue and what
-- other programs answer, `Ops` the operations; the other modules prove what those keep.
pub mod Store
pub mod Ops
pub mod Units
pub mod Tables
pub mod Keep
mod Queue
mod Frame
mod Switch
pub mod Commands
pub mod Tests
