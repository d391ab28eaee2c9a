-- ===== src/Jobs/Worker/Work.antt =====
-- The whole of `worker` in rootfs/usr/lib/rougarou/jobs.py, turn by turn.
use rougarou_os.Jobs.Worker.{Outcome}
use rougarou_os.Jobs.Worker.Alone.{Alone}
