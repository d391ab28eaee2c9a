-- ===== src/Notifications.antt =====
-- rootfs/usr/lib/rougarou/notifications.py: the delivery of webhook notifications. `Check` has the
-- operations; `Loss` follows the cursor through them.
pub mod Check
pub mod Message
mod Loss
mod Cursor
mod Tests
