-- ===== src/Cli.antt =====
-- rootfs/usr/lib/rougarou/cli.py: the operator's configuration and the launching of the AI.
pub mod Provider
pub mod Launch
pub mod Software
